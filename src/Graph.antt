-- ===== src/Graph.antt =====
-- include/dpor/model/execution_graph.hpp, ExecutionGraphT: events, reads-from choices and the
-- per-thread bookkeeping of event indices. A method that changes the graph returns the new one.
pub mod Indices
pub mod ReadsFrom
pub mod WellFormed
pub mod ThreadOrder
pub mod Rollback
pub mod Readers
use cpp_dpor.Prelude.{
  ℕ, zero, suc, ◌+◌, ◌-◌, ◌*◌, ◌^◌, ◌≤◌, ◌<◌, max, ◌≡◌, ◌≢◌, ◌↔◌, ◌⊎◌, inl, inr, refl, sym, ap, ◌∙◌,
  Bool, true, false, not, ◌&&◌, ◌||◌, List, [], ◌∷◌, ◌++◌, map, Option, some, none, arith, ltb, leb,
  ◌==◌, if◌then◌else◌, ltb→lt, lt→ltb, ltb-eq-false, ltb-false→le, leb→le, ==_iff, ==_refl, ==→eq,
  Bool-cases, Option-cases, List-cases, bool_ext, length, get_elem?, get_or, set, replicate,
  length-append, length-set, length-replicate, get_or-replicate, get_or-of_le, get_elem?-of_le,
  get_elem?-of_lt, get_elem?-append_left, get_elem?-append_last, pop_back, back?, pop_back-append,
  back?-append, get_or-set, lt-length_of_get_elem?, get_elem?-concat, grow, get_or-grow,
  le-length-grow, length-grow, put, get_or-put, elem, count, elem-count, count-append, elem-append,
  elem_of_get_elem?, get_elem?_of_elem, All, All-append, All-map,
}
use cpp_dpor.Errors.{Result, ok, throw, throw_if, precondition_error, internal_error, ◌>>◌, ◌>>=◌}
use cpp_dpor.Event.{Event, EventLabel, is_receive, is_send, max_index, max_thread_id}
use cpp_dpor.Relation.ProgramOrder.{ProgramOrderRelation, program_order}
use cpp_dpor.Relation.Explicit.{ExplicitRelation, explicit, add_edge}
use Indices.{UsedEventIndexSet, no_indices}
use Indices
use ReadsFrom.{ReadsFromSource, ReadsFromRelation, no_reads}
use ReadsFrom

pub record ExecutionGraph {ℓ} (V : Type ℓ) : Type ℓ where
  pub events : List (Event V)
  pub reads_from : ReadsFromRelation
  pub next_event_index_by_thread : List ℕ
  pub used_event_indices_by_thread : List UsedEventIndexSet

-- `while (used_indices.contains(next_index))`. The index rises to the last one at most, so more fuel
-- than the indices from `next` on is enough; `internal_error`, which the loop does not throw, says
-- that the fuel ran out.
unfoldable pub seek : ℕ → UsedEventIndexSet → ℕ → Result ℕ
seek zero used next = throw internal_error
seek (suc fuel) used next =
    let rest = seek fuel used (next + 1) in
    if Indices.contains used next
    then (if next == max_index then throw precondition_error else rest)
    else ok next

module _ {ℓ} {V : Type ℓ} where
  abbrev pub empty_graph : ExecutionGraph V
  empty_graph = record {
    events = [];
    reads_from = no_reads;
    next_event_index_by_thread = [];
    used_event_indices_by_thread = [];
  }

  -- `next_event_index_by_thread_[t]`, `used_event_indices_by_thread_[t]`
  abbrev pub next_of : ExecutionGraph V → ℕ → ℕ
  next_of g t = get_or g.next_event_index_by_thread t 0

  abbrev pub used_of : ExecutionGraph V → ℕ → UsedEventIndexSet
  used_of g t = get_or g.used_event_indices_by_thread t no_indices

  unfoldable pub is_valid_event_id : ExecutionGraph V → ℕ → Bool
  is_valid_event_id g id = ltb id (length g.events)

  unfoldable pub event : ExecutionGraph V → ℕ → Result (Event V)
  event g id = elim (get_elem? g.events id) [ none ↦ throw precondition_error | some e ↦ ok e ]

  -- The two vectors have one length, so the second `resize` grows too.
  unfoldable pub ensure_thread_storage : ExecutionGraph V → ℕ → Result (ExecutionGraph V)
  ensure_thread_storage g t =
      if leb (length g.next_event_index_by_thread) t
      then (if ltb max_thread_id t
          then throw precondition_error
          else ok (record g {
            next_event_index_by_thread = grow (suc t) 0 g.next_event_index_by_thread;
            used_event_indices_by_thread = grow (suc t) no_indices g.used_event_indices_by_thread;
          }))
      else ok g

  -- The graph with its storage and its counter moved on, and the index.
  unfoldable pub next_event_index : ExecutionGraph V → ℕ → Result (ExecutionGraph V × ℕ)
  unfolding ensure_thread_storage
  next_event_index g t = do
    g' ← ensure_thread_storage g t
    i ← seek (suc max_index) (used_of g' t) (next_of g' t)
    ok (record g' { next_event_index_by_thread = set g'.next_event_index_by_thread t i }, i)

  unfoldable pub append_event_unchecked :
      ExecutionGraph V → ℕ → ℕ → EventLabel V → ExecutionGraph V × ℕ
  append_event_unchecked g t i label = (
    record g {
      used_event_indices_by_thread =
          set g.used_event_indices_by_thread t (Indices.insert (used_of g t) i);
      next_event_index_by_thread =
          set g.next_event_index_by_thread t (if i == max_index then i else i + 1);
      events = g.events ++ record { thread = t; index = i; label = label } ∷ [];
    },
    length g.events,
  )

  unfoldable pub add_event : ExecutionGraph V → ℕ → EventLabel V → Result (ExecutionGraph V × ℕ)
  unfolding next_event_index append_event_unchecked
  add_event g t label = do r ← next_event_index g t; ok (append_event_unchecked r.0 t r.1 label)

  -- The replay path, with an index from outside.
  pub add_event_with_index : ExecutionGraph V → ℕ → ℕ → EventLabel V → Result (ExecutionGraph V × ℕ)
  unfolding ensure_thread_storage append_event_unchecked
  add_event_with_index g t i label = do
    g' ← ensure_thread_storage g t
    throw_if (Indices.contains (used_of g' t) i) precondition_error
    throw_if (ltb i (next_of g' t)) precondition_error
    ok (append_event_unchecked g' t i label)

  unfoldable pub set_reads_from_source : ExecutionGraph V → ℕ → ReadsFromSource → ExecutionGraph V
  set_reads_from_source g id source = record g {
    reads_from = ReadsFrom.assign g.reads_from id source;
  }

  unfoldable pub rollback_reads_from :
      ExecutionGraph V → ℕ → Option ReadsFromSource → ExecutionGraph V
  rollback_reads_from g id previous = record g {
    reads_from = elim previous [
      | some source ↦ ReadsFrom.assign g.reads_from id source
      | none ↦ ReadsFrom.clear g.reads_from id
    ];
  }

  -- `expected_id`, `t` and `i` are what the caller believes the last event to be.
  unfoldable pub rollback_last_event : ExecutionGraph V → ℕ → ℕ → ℕ → ℕ → Result (ExecutionGraph V)
  rollback_last_event g expected_id t i previous_next = elim (back? g.events) [
    | none ↦ throw internal_error
    | some last ↦ do
      throw_if (not (suc expected_id == length g.events)) internal_error
      throw_if (not (last.thread == t && last.index == i)) internal_error
      throw_if
          (leb (length g.next_event_index_by_thread) t
            || leb (length g.used_event_indices_by_thread) t)
          internal_error
      let erased = Indices.erase (used_of g t) i
      throw_if (not (erased.1 == 1)) internal_error
      ok (record g {
        events = pop_back g.events;
        used_event_indices_by_thread = set g.used_event_indices_by_thread t erased.0;
        next_event_index_by_thread = set g.next_event_index_by_thread t previous_next;
      })
  ]

  -- The ids, from `id` on, of the events that pass a test.
  pub ids_where : (Event V → Bool) → ℕ → List (Event V) → List ℕ
  ids_where test id [] = []
  ids_where test id (e ∷ es) =
      let rest = ids_where test (suc id) es in if test e then id ∷ rest else rest

  pub receive_event_ids : ExecutionGraph V → List ℕ
  unfolding ids_where
  receive_event_ids g = ids_where is_receive 0 g.events

  pub send_event_ids : ExecutionGraph V → List ℕ
  unfolding ids_where
  send_event_ids g = ids_where is_send 0 g.events
