-- ===== src/Prelude/Vectors.antt =====
-- Reads after writes, in vectors that grow on demand too.
use Prim.Native.Nat.{ℕ, zero, suc, ◌≤◌, ◌<◌, max}
use mathlib.Core.Path.{◌≡◌, refl}
use mathlib.Core.Option.{some}
use mathlib.Core.List.{List, [], ◌∷◌, ◌++◌}
use native.Mathlib.Omega.{arith}
use cpp_dpor.Prelude.Tests.{◌==◌, if◌then◌else◌}
use cpp_dpor.Prelude.Lists.{length, get_elem?, get_or, set}

module _ {ℓ} {A : Type ℓ} where
  pub get_or-set :
      (xs : List A) (i j : ℕ) (v d : A)
      → i < length xs
      → get_or (set xs i v) j d ≡ (if i == j then v else get_or xs j d)
  get_or-set [] i j v d h = elim h [ ]
  get_or-set (x ∷ xs) zero zero v d h = refl
  get_or-set (x ∷ xs) zero (suc j) v d h = ground arith
  get_or-set (x ∷ xs) (suc i) zero v d h = ground arith
  get_or-set (x ∷ xs) (suc i) (suc j) v d h = ground (arith, get_or-set xs i j v d)

  pub lt-length_of_get_elem? :
      (xs : List A) (i : ℕ) {a : A} → get_elem? xs i ≡ some a → i < length xs
  lt-length_of_get_elem? [] i h = cc
  lt-length_of_get_elem? (x ∷ xs) zero h = omega arith
  lt-length_of_get_elem? (x ∷ xs) (suc i) h = omega (arith, lt-length_of_get_elem? xs i h)

  -- A vector with one more element.
  pub get_elem?-concat :
      (xs : List A) (a : A) (i : ℕ)
      → get_elem? (xs ++ a ∷ []) i ≡ (if i == length xs then some a else get_elem? xs i)
  get_elem?-concat [] a zero = refl
  get_elem?-concat [] a (suc i) = ground arith
  get_elem?-concat (x ∷ xs) a zero = ground arith
  get_elem?-concat (x ∷ xs) a (suc i) = ground (arith, get_elem?-concat xs a i)

  -- `v.resize(n, d)` where it is called only to grow the vector.
  abbrev pub grow : ℕ → A → List A → List A
  grow zero d xs = xs
  grow (suc n) d [] = d ∷ grow n d []
  grow (suc n) d (x ∷ xs) = x ∷ grow n d xs

  pub get_or-grow : (n : ℕ) (d : A) (xs : List A) (i : ℕ) → get_or (grow n d xs) i d ≡ get_or xs i d
  get_or-grow zero d xs i = refl
  get_or-grow (suc n) d [] zero = refl
  get_or-grow (suc n) d [] (suc i) = get_or-grow n d [] i
  get_or-grow (suc n) d (x ∷ xs) zero = refl
  get_or-grow (suc n) d (x ∷ xs) (suc i) = get_or-grow n d xs i

  pub le-length-grow : (n : ℕ) (d : A) (xs : List A) → n ≤ length (grow n d xs)
  le-length-grow zero d xs = omega arith
  le-length-grow (suc n) d [] = omega (arith, le-length-grow n d [])
  le-length-grow (suc n) d (x ∷ xs) = omega (arith, le-length-grow n d xs)

  pub length-grow : (n : ℕ) (d : A) (xs : List A) → length (grow n d xs) ≡ max n (length xs)
  length-grow zero d xs = omega arith
  length-grow (suc n) d [] = omega (arith, length-grow n d [])
  length-grow (suc n) d (x ∷ xs) = omega (arith, length-grow n d xs)

  -- `if (i >= v.size()) v.resize(i + 1); v[i] = x;`
  abbrev pub put : List A → ℕ → A → A → List A
  put xs i d x = set (grow (suc i) d xs) i x

  pub get_or-put :
      (xs : List A) (i j : ℕ) (d x : A)
      → get_or (put xs i d x) j d ≡ (if i == j then x else get_or xs j d)
  get_or-put xs i j d x =
      rw (get_or-set (grow (suc i) d xs) i j x d (le-length-grow (suc i) d xs))
        (rw (get_or-grow (suc i) d xs j) refl)
