-- ===== src/Graph/Indices.antt =====
-- include/dpor/model/execution_graph.hpp, UsedEventIndexSet: the per-thread event indices in use,
-- as a dense prefix and a vector of the others.
pub mod Laws
use cpp_dpor.Prelude.{
  ℕ, zero, suc, ◌+◌, ◌-◌, ◌*◌, ◌^◌, ◌≤◌, ◌<◌, max, ◌≡◌, ◌≢◌, ◌↔◌, ◌⊎◌, inl, inr, refl, sym, ap, ◌∙◌,
  Bool, true, false, not, ◌&&◌, ◌||◌, List, [], ◌∷◌, ◌++◌, map, Option, some, none, arith, ltb, leb,
  ◌==◌, if◌then◌else◌, ltb→lt, lt→ltb, ltb-eq-false, ltb-false→le, leb→le, ==_iff, ==_refl, ==→eq,
  Bool-cases, Option-cases, bool_ext, length, get_elem?, get_or, set, replicate, length-append,
  length-set, length-replicate, get_or-replicate, get_or-of_le, get_elem?-of_le, get_elem?-of_lt,
  get_elem?-append_left, get_elem?-append_last, pop_back, back?, pop_back-append, back?-append,
  get_or-set, lt-length_of_get_elem?, get_elem?-concat, grow, get_or-grow, le-length-grow,
  length-grow, put, get_or-put, elem, count, elem-count, count-append, elem-append,
  elem_of_get_elem?, get_elem?_of_elem, All, All-append, All-map,
}
use cpp_dpor.Event.{max_index}

pub record UsedEventIndexSet : Type 0 where
  pub dense_end : ℕ
  pub sparse : List ℕ

abbrev pub no_indices : UsedEventIndexSet
no_indices = record { dense_end = 0; sparse = [] }

abbrev last_of : ℕ → List ℕ → ℕ
last_of x [] = x
last_of x (y ∷ ys) = last_of y ys

abbrev but_last : ℕ → List ℕ → List ℕ
but_last x [] = []
but_last x (y ∷ ys) = x ∷ but_last y ys

-- `*it = sparse_.back(); sparse_.pop_back();` at the place `it` that `tail` follows.
abbrev fill_hole : List ℕ → List ℕ
fill_hole [] = []
fill_hole (y ∷ ys) = last_of y ys ∷ but_last y ys

-- The same at the first occurrence of `i`; a vector without `i` stays as it is.
pub swap_remove : ℕ → List ℕ → List ℕ
swap_remove i [] = []
swap_remove i (x ∷ xs) = if x == i then fill_hole xs else x ∷ swap_remove i xs

unfoldable pub contains : UsedEventIndexSet → ℕ → Bool
contains s i = ltb i s.dense_end || elem i s.sparse

-- The loop ends at the latest when the vector is empty, so its length is fuel enough.
absorb : ℕ → UsedEventIndexSet → UsedEventIndexSet
absorb zero s = s
absorb (suc fuel) s =
    let next =
      absorb fuel
        (record { dense_end = s.dense_end + 1; sparse = swap_remove s.dense_end s.sparse }) in
    if elem s.dense_end s.sparse && not (s.dense_end == max_index) then next else s

absorb_sparse : UsedEventIndexSet → UsedEventIndexSet
unfolding absorb
absorb_sparse s = absorb (length s.sparse) s

unfoldable pub insert : UsedEventIndexSet → ℕ → UsedEventIndexSet
unfolding absorb_sparse
insert s i =
    if i == s.dense_end && not (i == max_index)
    then absorb_sparse (record s { dense_end = s.dense_end + 1 })
    else record s { sparse = s.sparse ++ i ∷ [] }

-- `lo, lo + 1, …`, `n` numbers.
count_up : ℕ → ℕ → List ℕ
count_up zero lo = []
count_up (suc n) lo = lo ∷ count_up n (lo + 1)

-- The set without `i`, and how many elements went.
unfoldable pub erase : UsedEventIndexSet → ℕ → UsedEventIndexSet × ℕ
unfolding swap_remove count_up
erase s i =
    if elem i s.sparse
    then (record s { sparse = swap_remove i s.sparse }, 1)
    else if leb s.dense_end i
    then (s, 0)
    else (
      record { dense_end = i; sparse = s.sparse ++ count_up (s.dense_end - (i + 1)) (i + 1) },
      1,
    )
