-- ===== src/Graph/Indices/Laws.antt =====
-- include/dpor/model/execution_graph.hpp, UsedEventIndexSet: its operations as those of a set of
-- numbers.
use cpp_dpor.Prelude.{
  ℕ, zero, suc, ◌+◌, ◌-◌, ◌≤◌, ◌<◌, ◌≡◌, inl, inr, refl, true, false, not, ◌&&◌, ◌||◌, List, [],
  ◌∷◌, arith, ltb, leb, ◌==◌, if◌then◌else◌, Bool-cases, length, elem, count, elem-count,
  count-append, elem-append,
}
use cpp_dpor.Event.{max_index}
use cpp_dpor.Graph.Indices.{
  UsedEventIndexSet, no_indices, last_of, but_last, fill_hole, swap_remove, contains, absorb,
  absorb_sparse, insert, count_up, erase,
}

count-last_of : (j x : ℕ) (xs : List ℕ) → count j (last_of x xs ∷ but_last x xs) ≡ count j (x ∷ xs)
count-last_of j x [] = refl
count-last_of j x (y ∷ ys) = omega (arith, count-last_of j y ys)

count-fill_hole : (j : ℕ) (xs : List ℕ) → count j (fill_hole xs) ≡ count j xs
count-fill_hole j [] = refl
count-fill_hole j (x ∷ xs) = count-last_of j x xs

-- `swap_remove i` takes away one `i` and keeps every other number.
count-swap_remove :
    (i j : ℕ) (xs : List ℕ) → count j (swap_remove i xs) ≡ count j xs - (if i == j then 1 else 0)
unfolding swap_remove
count-swap_remove i j [] = ground arith
count-swap_remove i j (x ∷ xs) = ground (arith, count-swap_remove i j xs, count-fill_hole j xs)

elem-swap_remove :
    (i j : ℕ) (xs : List ℕ) → ((i == j) ≡ false) → elem j (swap_remove i xs) ≡ elem j xs
elem-swap_remove i j xs h =
    ground (arith, elem-count j (swap_remove i xs), elem-count j xs, count-swap_remove i j xs)

-- One round moves `dense_end` from the vector into the prefix.
contains-absorb_step :
    (s : UsedEventIndexSet) (j : ℕ)
    → elem s.dense_end s.sparse ≡ true
    → contains (record { dense_end = s.dense_end + 1; sparse = swap_remove s.dense_end s.sparse }) j
      ≡ contains s j
unfolding contains
contains-absorb_step s j h = ground (arith, elem-swap_remove s.dense_end j s.sparse)

contains-absorb :
    (fuel : ℕ) (s : UsedEventIndexSet) (j : ℕ) → contains (absorb fuel s) j ≡ contains s j
unfolding absorb
contains-absorb zero s j = refl
contains-absorb (suc fuel) s j = ground (
  arith,
  contains-absorb_step s j,
  contains-absorb fuel
      (record { dense_end = s.dense_end + 1; sparse = swap_remove s.dense_end s.sparse }) j,
)

-- Inserting an index into the set of used indices adds that index and no other, whatever state the
-- dense prefix and the sparse vector are in.
pub contains-insert :
    (s : UsedEventIndexSet) (i j : ℕ) → contains (insert s i) j ≡ (contains s j || i == j)
unfolding insert absorb_sparse contains
contains-insert s i j = ground (
  arith,
  contains-absorb (length s.sparse) (record s { dense_end = s.dense_end + 1 }) j,
  elem-append j s.sparse (i ∷ []),
)

count-count_up :
    (n lo j : ℕ) → count j (count_up n lo) ≡ (if leb lo j && ltb j (lo + n) then 1 else 0)
unfolding count_up
count-count_up zero lo j = ground arith
count-count_up (suc n) lo j = ground (arith, count-count_up n (lo + 1) j)

-- No number is stored twice.
pub record IsValid (s : UsedEventIndexSet) : Type 0 where
  pub once : (j : ℕ) → count j s.sparse ≤ 1
  pub above : (j : ℕ) → 0 < count j s.sparse → s.dense_end ≤ j

-- In a set of used indices that stores no index twice, erasing an index takes away that index and
-- no other, and returns 1 if it was there and 0 if not.
pub erase_lem :
    (s : UsedEventIndexSet) (i j : ℕ)
    → IsValid s
    → (contains (erase s i).0 j ≡ (contains s j && not (i == j)))
      × ((erase s i).1 ≡ (if contains s i then 1 else 0))
unfolding erase contains
erase_lem s i j v = ground (
  arith,
  v.once i,
  v.once j,
  v.above i,
  v.above j,
  elem-count i s.sparse,
  elem-count j s.sparse,
  elem-count j (swap_remove i s.sparse),
  count-swap_remove i j s.sparse,
  elem-append j s.sparse (count_up (s.dense_end - (i + 1)) (i + 1)),
  elem-count j (count_up (s.dense_end - (i + 1)) (i + 1)),
  count-count_up (s.dense_end - (i + 1)) (i + 1) j,
)

absorb-IsValid : (fuel : ℕ) (s : UsedEventIndexSet) → IsValid s → IsValid (absorb fuel s)
unfolding absorb
absorb-IsValid zero s v = v
absorb-IsValid (suc fuel) s v =
    let s' : UsedEventIndexSet = record {
      dense_end = s.dense_end + 1;
      sparse = swap_remove s.dense_end s.sparse;
    } in
    let v' : IsValid s' = record {
      once = λ j. omega (arith, v.once j, count-swap_remove s.dense_end j s.sparse);
      above = λ j h. ground (arith, v.once j, v.above j, count-swap_remove s.dense_end j s.sparse);
    } in
    elim (Bool-cases (elem s.dense_end s.sparse && not (s.dense_end == max_index))) [
      | inl e ↦ rw e (absorb-IsValid fuel s' v')
      | inr e ↦ rw e v
    ]

pub no_indices-IsValid : IsValid no_indices
no_indices-IsValid = record { once = λ j. omega arith; above = λ j h. omega arith }

-- An insertion of a new number stores it once.
pub insert-IsValid :
    (s : UsedEventIndexSet) (i : ℕ) → IsValid s → contains s i ≡ false → IsValid (insert s i)
unfolding insert absorb_sparse contains
insert-IsValid s i v new = elim (Bool-cases (i == s.dense_end && not (i == max_index))) [
  | inl e ↦ rw e (
      absorb-IsValid (length s.sparse) (record s { dense_end = s.dense_end + 1 })
        (record { once = v.once; above = λ j h. ground (arith, v.above j, elem-count j s.sparse) }))
  | inr e ↦ rw e (record {
    once = λ j. ground (arith, v.once j, count-append j s.sparse (i ∷ []), elem-count j s.sparse);
    above = λ j h. ground (arith, v.above j, count-append j s.sparse (i ∷ []));
  })
]

pub erase-IsValid : (s : UsedEventIndexSet) (i : ℕ) → IsValid s → IsValid (erase s i).0
unfolding erase
erase-IsValid s i v =
    let k = s.dense_end - (i + 1) in
    record {
      once = λ j. ground (
        arith,
        v.once j,
        v.above j,
        count-swap_remove i j s.sparse,
        count-append j s.sparse (count_up k (i + 1)),
        count-count_up k (i + 1) j,
      );
      above = λ j h. ground (
        arith,
        v.once j,
        v.above j,
        count-swap_remove i j s.sparse,
        elem-count i s.sparse,
        count-append j s.sparse (count_up k (i + 1)),
        count-count_up k (i + 1) j,
      );
    }

pub contains-no_indices : (j : ℕ) → contains no_indices j ≡ false
unfolding contains
contains-no_indices j = ground arith
