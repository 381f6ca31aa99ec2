-- ===== src/Graph/ReadsFrom.antt =====
-- include/dpor/model/execution_graph.hpp, ReadsFromSourceT and ReadsFromRelationT: the source that
-- each receive reads from, in a vector of optional entries with their number beside it.
pub mod Laws
use cpp_dpor.Prelude.{
  ℕ, zero, suc, ◌+◌, ◌-◌, ◌*◌, ◌^◌, ◌≤◌, ◌<◌, max, ◌≡◌, ◌≢◌, ◌↔◌, ◌⊎◌, inl, inr, refl, sym, ap, ◌∙◌,
  Bool, true, false, not, ◌&&◌, ◌||◌, List, [], ◌∷◌, ◌++◌, map, Option, some, none, arith, ltb, leb,
  ◌==◌, if◌then◌else◌, ltb→lt, lt→ltb, ltb-eq-false, ltb-false→le, leb→le, ==_iff, ==_refl, ==→eq,
  Bool-cases, Option-cases, bool_ext, length, get_elem?, get_or, set, replicate, length-append,
  length-set, length-replicate, get_or-replicate, get_or-of_le, get_elem?-of_le, get_elem?-of_lt,
  get_elem?-append_left, get_elem?-append_last, pop_back, back?, pop_back-append, back?-append,
  get_or-set, lt-length_of_get_elem?, get_elem?-concat, grow, get_or-grow, le-length-grow,
  length-grow, put, get_or-put, elem, count, elem-count, count-append, elem-append,
  elem_of_get_elem?, get_elem?_of_elem, All, All-append, All-map,
}
use cpp_dpor.Errors.{Result, ok, throw, precondition_error}

pub data ReadsFromSource : Type 0 where
  from_send : ℕ → ReadsFromSource
  bottom : ReadsFromSource

abbrev pub is_send : ReadsFromSource → Bool
is_send (from_send i) = true
is_send bottom = false

abbrev pub is_bottom : ReadsFromSource → Bool
is_bottom (from_send i) = false
is_bottom bottom = true

pub send_id : ReadsFromSource → Result ℕ
send_id (from_send i) = ok i
send_id bottom = throw precondition_error

-- `operator==(EventIdT)`
abbrev pub is_from : ReadsFromSource → ℕ → Bool
is_from (from_send i) j = i == j
is_from bottom j = false

pub record ReadsFromRelation : Type 0 where
  pub entries : List (Option ReadsFromSource)
  pub size : ℕ

abbrev pub no_reads : ReadsFromRelation
no_reads = record { entries = []; size = 0 }

-- `find`, with `none` for `end()`. A read past the end of the vector gives `none` too.
unfoldable pub find : ReadsFromRelation → ℕ → Option ReadsFromSource
find r id = get_or r.entries id none

pub at : ReadsFromRelation → ℕ → Result ReadsFromSource
unfolding find
at r id = elim (find r id) [ none ↦ throw precondition_error | some s ↦ ok s ]

pub is_empty : ReadsFromRelation → Bool
is_empty r = r.size == 0

-- How many entries a cell holds.
abbrev occupied : Option ReadsFromSource → ℕ
occupied none = 0
occupied (some s) = 1

unfoldable pub assign : ReadsFromRelation → ℕ → ReadsFromSource → ReadsFromRelation
unfolding find
assign r id s = record {
  entries = put r.entries id none (some s);
  size = elim (find r id) [ none ↦ r.size + 1 | some old ↦ r.size ];
}

pub clear : ReadsFromRelation → ℕ → ReadsFromRelation
unfolding find
clear r id = elim (find r id) [
  | none ↦ r
  | some old ↦ record { entries = set r.entries id none; size = r.size - 1 }
]

-- What `begin()` to `end()` runs through: the cells that hold a source, by ascending id.
entries_from : ℕ → List (Option ReadsFromSource) → List (ℕ × ReadsFromSource)
entries_from id [] = []
entries_from id (none ∷ cells) = entries_from (suc id) cells
entries_from id (some s ∷ cells) = (id, s) ∷ entries_from (suc id) cells

unfoldable pub to_list : ReadsFromRelation → List (ℕ × ReadsFromSource)
unfolding entries_from
to_list r = entries_from 0 r.entries
