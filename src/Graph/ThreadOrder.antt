-- ===== src/Graph/ThreadOrder.antt =====
-- include/dpor/model/execution_graph.hpp, ExecutionGraphT::derive_thread_event_sequences and
-- po_relation: the program order of a graph.
pub mod Ids
pub mod Buckets
pub mod Correct
use cpp_dpor.Prelude.{
  ℕ, zero, suc, ◌+◌, ◌-◌, ◌*◌, ◌^◌, ◌≤◌, ◌<◌, max, ◌≡◌, ◌≢◌, ◌↔◌, ◌⊎◌, inl, inr, refl, sym, ap, ◌∙◌,
  Bool, true, false, not, ◌&&◌, ◌||◌, List, [], ◌∷◌, ◌++◌, map, Option, some, none, arith, ltb, leb,
  ◌==◌, if◌then◌else◌, ltb→lt, lt→ltb, ltb-eq-false, ltb-false→le, leb→le, ==_iff, ==_refl, ==→eq,
  Bool-cases, Option-cases, bool_ext, length, get_elem?, get_or, set, replicate, length-append,
  length-set, length-replicate, get_or-replicate, get_or-of_le, get_elem?-of_le, get_elem?-of_lt,
  get_elem?-append_left, get_elem?-append_last, pop_back, back?, pop_back-append, back?-append,
  get_or-set, lt-length_of_get_elem?, get_elem?-concat, grow, get_or-grow, le-length-grow,
  length-grow, put, get_or-put, elem, count, elem-count, count-append, elem-append,
  elem_of_get_elem?, get_elem?_of_elem, All, All-append, All-map,
}
use cpp_dpor.Errors.{Result, ok, throw, throw_if, precondition_error, internal_error, ◌>>◌, ◌>>=◌}
use cpp_dpor.Event.{Event}
use cpp_dpor.Graph.{ExecutionGraph}
use cpp_dpor.Relation.ProgramOrder.{ProgramOrderRelation, program_order}

module _ {ℓ} {V : Type ℓ} where
  -- The first loop: each id goes to the end of its thread's bucket.
  pub buckets : ℕ → List (Event V) → List (List ℕ) → List (List ℕ)
  buckets id [] acc = acc
  buckets id (e ∷ es) acc =
      buckets (suc id) es (put acc e.thread [] (get_or acc e.thread [] ++ id ∷ []))

  -- `events_[id].index`, at an id of an event.
  abbrev pub index_at : List (Event V) → ℕ → ℕ
  index_at events id = elim (get_elem? events id) [ none ↦ 0 | some e ↦ e.index ]

  pub check_after : List (Event V) → ℕ → List ℕ → Result (Unit {0})
  check_after events previous [] = ok tt
  check_after events previous (id ∷ ids) = do
    throw_if (index_at events previous == index_at events id) internal_error
    throw_if (ltb (index_at events id) (index_at events previous)) internal_error
    check_after events id ids

  -- The second loop: empty buckets are passed over, the others checked for their order.
  pub collect : List (Event V) → List (List ℕ) → Result (List (List ℕ))
  unfolding check_after
  collect events [] = ok []
  collect events ([] ∷ rest) = collect events rest
  collect events ((id ∷ ids) ∷ rest) = do
    check_after events id ids
    sequences ← collect events rest
    ok ((id ∷ ids) ∷ sequences)

  pub derive_thread_event_sequences : ExecutionGraph V → Result (List (List ℕ))
  unfolding buckets collect
  derive_thread_event_sequences g = collect g.events (buckets 0 g.events [])

  pub po_relation : ExecutionGraph V → Result ProgramOrderRelation
  unfolding derive_thread_event_sequences
  po_relation g = do
    sequences ← derive_thread_event_sequences g
    program_order (length g.events) sequences
