-- ===== src/Exploration/History.antt =====
-- include/dpor/model/exploration_graph.hpp, ExplorationGraphT: checkpoint, rollback and the undo
-- steps.
use cpp_dpor.Prelude.{
  ℕ, zero, suc, ◌-◌, Bool, true, not, ◌||◌, List, [], ◌∷◌, some, none, ltb, leb, ◌==◌,
  if◌then◌else◌, length, get_or, set, pop_back, back?,
}
use cpp_dpor.Errors.{Result, ok, throw, throw_if, precondition_error, internal_error, ◌>>◌, ◌>>=◌}
use cpp_dpor.Event.{is_receive, is_send}
use cpp_dpor.Graph
use cpp_dpor.Exploration.{
  ExplorationGraph, Checkpoint, EventUndo, event_count, current_reads_from_source,
  update_send_reader_state,
}

-- `v.back() != id`, for an empty vector too.
pub back_differs : List ℕ → ℕ → Bool
back_differs xs id = elim (back? xs) [ none ↦ true | some last ↦ not (last == id) ]

module _ {ℓ} {V : Type ℓ} where
  unfoldable pub checkpoint : ExplorationGraph V → Checkpoint
  checkpoint g = record {
    event_undo_size = length g.event_undo_log;
    rf_undo_size = length g.rf_undo_log;
    known_acyclic = g.known_acyclic;
    pending_fresh_receive_id = g.pending_fresh_receive_id;
  }

  pub undo_last_rf_assignment : ExplorationGraph V → Result (ExplorationGraph V)
  undo_last_rf_assignment g = elim g.rf_undo_log [
    | [] ↦ throw internal_error
    | undo ∷ log ↦
        update_send_reader_state
          (record g {
            graph = Graph.rollback_reads_from g.graph undo.receive_id undo.previous_source;
            rf_undo_log = log;
          })
          (current_reads_from_source g undo.receive_id) undo.previous_source
  ]

  -- The caches of an event's own kind, once the graph has dropped the event.
  pub leave_receives : ExplorationGraph V → ℕ → ℕ → Result (ExplorationGraph V)
  unfolding back_differs
  leave_receives g t id = do
    throw_if (back_differs (get_or g.receive_event_ids_by_thread t []) id) internal_error
    ok (record g {
      receive_event_ids_by_thread =
          set g.receive_event_ids_by_thread t
            (pop_back (get_or g.receive_event_ids_by_thread t []));
    })

  pub leave_sends : ExplorationGraph V → ℕ → Result (ExplorationGraph V)
  unfolding back_differs
  leave_sends g id = do
    throw_if (back_differs g.send_event_ids id) internal_error
    throw_if (elim (back? g.send_reader_counts) [ none ↦ true | some readers ↦ not (readers == 0) ])
        internal_error
    ok (record g { send_event_ids = pop_back g.send_event_ids })

  -- The rest of `undo_last_event_append`, for the undo record that was popped off the log.
  pub undo_event : ExplorationGraph V → EventUndo → Result (ExplorationGraph V)
  unfolding back_differs leave_receives leave_sends
  undo_event g undo = do
    tail ← Graph.event g.graph undo.event_id
    throw_if (not (event_count g == suc undo.event_id)) internal_error
    graph' ←
        Graph.rollback_last_event g.graph undo.event_id undo.thread undo.event_index
          undo.previous_next_event_index
    throw_if (leb (length g.thread_state) undo.thread) internal_error
    throw_if (back_differs (get_or g.thread_event_ids undo.thread []) undo.event_id) internal_error
    let g1 = record g {
      graph = graph';
      thread_state = set g.thread_state undo.thread undo.previous_thread_state;
      thread_event_ids =
          set g.thread_event_ids undo.thread (pop_back (get_or g.thread_event_ids undo.thread []));
    }
    g2 ← if is_receive tail then leave_receives g1 undo.thread undo.event_id else ok g1
    throw_if (length g2.send_reader_counts == 0 || length g2.unread_send_mask == 0) internal_error
    g3 ← if is_send tail then leave_sends g2 undo.event_id else ok g2
    ok (record g3 {
      send_reader_counts = pop_back g3.send_reader_counts;
      unread_send_mask = pop_back g3.unread_send_mask;
    })

  pub undo_last_event_append : ExplorationGraph V → Result (ExplorationGraph V)
  unfolding undo_event
  undo_last_event_append g = elim g.event_undo_log [
    | [] ↦ throw internal_error
    | undo ∷ log ↦ undo_event (record g { event_undo_log = log }) undo
  ]

  -- `while (rf_undo_log_.size() > size)`: `n` rounds, for the records above the checkpoint.
  pub undo_rf_assignments : ℕ → ExplorationGraph V → Result (ExplorationGraph V)
  unfolding undo_last_rf_assignment
  undo_rf_assignments zero g = ok g
  undo_rf_assignments (suc n) g = do g' ← undo_last_rf_assignment g; undo_rf_assignments n g'

  pub undo_event_appends : ℕ → ExplorationGraph V → Result (ExplorationGraph V)
  unfolding undo_last_event_append
  undo_event_appends zero g = ok g
  undo_event_appends (suc n) g = do g' ← undo_last_event_append g; undo_event_appends n g'

  unfoldable pub rollback : ExplorationGraph V → Checkpoint → Result (ExplorationGraph V)
  unfolding undo_rf_assignments undo_event_appends
  rollback g c = do
    throw_if
        (ltb (length g.event_undo_log) c.event_undo_size
          || ltb (length g.rf_undo_log) c.rf_undo_size)
        precondition_error
    g1 ← undo_rf_assignments (length g.rf_undo_log - c.rf_undo_size) g
    g2 ← undo_event_appends (length g1.event_undo_log - c.event_undo_size) g1
    ok (record g2 {
      known_acyclic = c.known_acyclic;
      pending_fresh_receive_id = c.pending_fresh_receive_id;
    })
