-- ===== src/Prelude/Elem.antt =====
-- Membership of a number in a list as a test, and how often it occurs.
use Prim.Native.Nat.{ℕ, zero, suc, ◌+◌}
use mathlib.Core.Path.{◌≡◌, refl}
use mathlib.Core.Bool.{Bool, true, false, ◌||◌}
use mathlib.Core.List.{List, [], ◌∷◌, ◌++◌}
use native.Mathlib.Omega.{arith}
use mathlib.Core.Option.{some}
use mathlib.Core.Logic.{inl, inr}
use cpp_dpor.Prelude.Tests.{◌==◌, ltb, if◌then◌else◌, Bool-cases}
use cpp_dpor.Prelude.Lists.{get_elem?}

-- `std::find(xs.begin(), xs.end(), a) != xs.end()`
abbrev pub elem : ℕ → List ℕ → Bool
elem a [] = false
elem a (x ∷ xs) = x == a || elem a xs

abbrev pub count : ℕ → List ℕ → ℕ
count a [] = 0
count a (x ∷ xs) = (if x == a then 1 else 0) + count a xs

pub elem-count : (a : ℕ) (xs : List ℕ) → elem a xs ≡ ltb 0 (count a xs)
elem-count a [] = refl
elem-count a (x ∷ xs) = ground (arith, elem-count a xs)

pub count-append :
    (n : ℕ) (front back : List ℕ) → count n (front ++ back) ≡ count n front + count n back
count-append n [] back = omega arith
count-append n (first ∷ rest) back = omega (arith, count-append n rest back)

pub elem-append : (a : ℕ) (xs ys : List ℕ) → elem a (xs ++ ys) ≡ (elem a xs || elem a ys)
elem-append a [] ys = refl
elem-append a (x ∷ xs) ys = ground (arith, elem-append a xs ys)

pub elem_of_get_elem? : (xs : List ℕ) (i a : ℕ) → get_elem? xs i ≡ some a → elem a xs ≡ true
elem_of_get_elem? [] i a h = cc
elem_of_get_elem? (x ∷ xs) zero a h = ground arith
elem_of_get_elem? (x ∷ xs) (suc i) a h = ground (arith, elem_of_get_elem? xs i a h)

pub get_elem?_of_elem :
    (xs : List ℕ) (a : ℕ) → elem a xs ≡ true → (i : ℕ) × (get_elem? xs i ≡ some a)
get_elem?_of_elem [] a h = cc
get_elem?_of_elem (x ∷ xs) a h = elim (Bool-cases (x == a)) [
  | inl e ↦ (0, ground arith)
  | inr d ↦ let (i, g) = get_elem?_of_elem xs a (ground arith) in (suc i, g)
]
