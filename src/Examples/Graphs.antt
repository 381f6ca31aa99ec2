-- ===== src/Examples/Graphs.antt =====
-- The theorems on include/dpor/model/execution_graph.hpp at a graph of two events: thread 0 sends 7
-- to thread 1, which receives.
use cpp_dpor.Prelude.{
  ℕ, ◌≤◌, ◌<◌, ◌≡◌, ◌↔◌, ◌⊎◌, refl, true, not, ◌&&◌, ◌||◌, some, arith, ◌==◌, if◌then◌else◌, length,
  get_elem?, elem,
}
use cpp_dpor.Errors.{Result, ok, throw}
use cpp_dpor.Event.{Event, EventLabel, blocking, receive, send, max_index}
use cpp_dpor.Relation.{IsRelation}
use cpp_dpor.Relation.ProgramOrder.{ProgramOrderRelation, to_relation, later}
use cpp_dpor.Graph.{
  ExecutionGraph, seek, empty_graph, used_of, next_of, ensure_thread_storage, next_event_index,
  append_event_unchecked, add_event, add_event_with_index, set_reads_from_source,
  rollback_reads_from, rollback_last_event,
}
use cpp_dpor.Graph.Indices
use cpp_dpor.Graph.Indices.{UsedEventIndexSet, no_indices}
use cpp_dpor.Graph.Indices.Laws.{
  insert-IsValid, no_indices-IsValid, contains-no_indices, contains-insert, erase_lem,
}
use cpp_dpor.Graph.ReadsFrom
use cpp_dpor.Graph.ReadsFrom.{ReadsFromSource, ReadsFromRelation, from_send, bottom, no_reads}
use cpp_dpor.Graph.ReadsFrom.Laws.{IsCounted, assign-IsCounted}
use cpp_dpor.Graph.WellFormed.{IsWellFormed, empty_graph-IsWellFormed}
use cpp_dpor.Graph.WellFormed.Insertion.{
  Inserted, add_event_lem, add_event_with_index_lem, add_event-IsWellFormed,
}
use cpp_dpor.Graph.ThreadOrder.{po_relation}
use cpp_dpor.Graph.ThreadOrder.Correct.{InProgramOrder, po_relation_lem}
use cpp_dpor.Graph.Rollback.{SameView, rollback-add_event, rollback-set_reads_from}

abbrev pub sends_seven : EventLabel ℕ
sends_seven = send (record { destination = 1; value = 7 })

abbrev pub receives_any : EventLabel ℕ
receives_any = receive (record { mode = blocking; matches = λ v. true })

-- The graph of a result, the empty one for an error.
abbrev graph_of : Result (ExecutionGraph ℕ × ℕ) → ExecutionGraph ℕ
graph_of (ok (g, id)) = g
graph_of (throw e) = empty_graph

unfoldable pub one_event : ExecutionGraph ℕ
one_event = graph_of (add_event empty_graph 0 sends_seven)

unfoldable pub two_events : ExecutionGraph ℕ
unfolding one_event
two_events = graph_of (add_event one_event 1 receives_any)

pub one_event-added : add_event empty_graph 0 sends_seven ≡ ok (one_event, 0)
unfolding one_event add_event next_event_index ensure_thread_storage seek append_event_unchecked
    Indices.contains
one_event-added = refl

pub two_events-added : add_event one_event 1 receives_any ≡ ok (two_events, 1)
unfolding one_event two_events add_event next_event_index ensure_thread_storage seek
    append_event_unchecked Indices.contains
two_events-added = refl

one_event-IsWellFormed : IsWellFormed one_event
one_event-IsWellFormed =
    add_event-IsWellFormed empty_graph one_event 0 0 sends_seven empty_graph-IsWellFormed
      one_event-added

two_events-IsWellFormed : IsWellFormed two_events
two_events-IsWellFormed =
    add_event-IsWellFormed one_event two_events 1 1 receives_any one_event-IsWellFormed
      two_events-added

add_event_lem_example :
    Inserted one_event 1 receives_any
      (add_event one_event 1 receives_any)
      (λ i.
        (k : ℕ) → next_of one_event 1 ≤ k → k < i → Indices.contains (used_of one_event 1) k ≡ true)
      (Indices.contains (used_of one_event 1) max_index ≡ true)
add_event_lem_example = add_event_lem one_event 1 receives_any one_event-IsWellFormed

add_event_with_index_lem_example :
    Inserted one_event 1 receives_any
      (add_event_with_index one_event 1 5 receives_any)
      (λ j. j ≡ 5)
      ((Indices.contains (used_of one_event 1) 5 ≡ true) ⊎ (5 < next_of one_event 1))
add_event_with_index_lem_example =
    add_event_with_index_lem one_event 1 5 receives_any one_event-IsWellFormed (omega arith)

rollback-add_event_example :
    (e : Event ℕ) × (get_elem? two_events.events 1 ≡ some e)
    × (h : ExecutionGraph ℕ) × (rollback_last_event two_events 1 1 e.index (next_of one_event 1)
        ≡ ok h)
    × SameView one_event h
rollback-add_event_example =
    rollback-add_event one_event two_events 1 1 receives_any one_event-IsWellFormed two_events-added

rollback-set_reads_from_example :
    ReadsFrom.find
      (rollback_reads_from
        (set_reads_from_source two_events 1 (from_send 0))
        1
        (ReadsFrom.find two_events.reads_from 1)).reads_from
      1
    ≡ ReadsFrom.find two_events.reads_from 1
rollback-set_reads_from_example = rollback-set_reads_from two_events 1 1 (from_send 0)

po_relation_lem_example :
    (r : ProgramOrderRelation) × (po_relation two_events ≡ ok r)
    × (r.node_count ≡ length two_events.events)
    × IsRelation (to_relation r) (later r)
    × ((a b : ℕ) → (elem b (later r a) ≡ true) ↔ InProgramOrder two_events a b)
po_relation_lem_example = po_relation_lem two_events two_events-IsWellFormed

abbrev sparse_three : UsedEventIndexSet
sparse_three = Indices.insert no_indices 3

contains-insert_example :
    Indices.contains (Indices.insert sparse_three 0) 3 ≡ (Indices.contains sparse_three 3 || 0 == 3)
contains-insert_example = contains-insert sparse_three 0 3

erase_lem_example :
    (Indices.contains (Indices.erase sparse_three 3).0 3
      ≡ (Indices.contains sparse_three 3 && not (3 == 3)))
    × ((Indices.erase sparse_three 3).1 ≡ (if Indices.contains sparse_three 3 then 1 else 0))
erase_lem_example =
    erase_lem sparse_three 3 3
      (insert-IsValid no_indices 3 no_indices-IsValid (contains-no_indices 3))

assign-IsCounted_example : IsCounted (ReadsFrom.assign no_reads 1 (from_send 0))
assign-IsCounted_example = assign-IsCounted no_reads 1 (from_send 0) refl
