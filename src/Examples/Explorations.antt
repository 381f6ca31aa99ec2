-- ===== src/Examples/Explorations.antt =====
-- The theorems on include/dpor/model/exploration_graph.hpp at a graph in which thread 0 sends 7 to
-- thread 1, which receives it.
use cpp_dpor.Prelude.{ℕ, ◌≡◌, refl, true}
use cpp_dpor.Errors.{Result, ok, throw}
use cpp_dpor.Graph
use cpp_dpor.Graph.Indices
use cpp_dpor.Graph.ReadsFrom
use cpp_dpor.Graph.ReadsFrom.{ReadsFromSource, from_send, bottom}
use cpp_dpor.Graph.WellFormed.{IsWellFormed}
use cpp_dpor.Exploration.{
  ExplorationGraph, empty, update_acyclicity_after_add_event, update_acyclicity_after_rf_assignment,
  is_pending, lower, raise, counts_readers, drop_source, take_source, update_send_reader_state,
  current_reads_from_source, invalidate_known_acyclicity, set_reads_from_source,
}
use cpp_dpor.Exploration.Cached.{IsCached}
use cpp_dpor.Exploration.Cached.Reached.{Reached-IsCached}
use cpp_dpor.Exploration.Insert.{enter_caches, entered, add_event}
use cpp_dpor.Exploration.Acyclic.{IsAcyclic, Porf, IsSound}
use cpp_dpor.Exploration.Acyclic.Sound.{
  add_event-IsSound, set_reads_from_source-IsSound, Reached, start, add, assign, Reached-IsSound,
  known_acyclic-IsAcyclic,
}
use cpp_dpor.Examples.Graphs.{
  sends_seven, receives_any, one_event, two_events, one_event-added, two_events-added,
}

abbrev assigned : Result (ExplorationGraph ℕ) → ExplorationGraph ℕ
assigned (ok g) = g
assigned (throw e) = empty

sent : ExplorationGraph ℕ
unfolding entered
sent = entered empty 0 one_event 0

waiting : ExplorationGraph ℕ
unfolding sent
waiting = entered sent 1 two_events 1

received : ExplorationGraph ℕ
unfolding waiting
received = assigned (set_reads_from_source waiting 1 (from_send 0))

sent-added : add_event empty 0 sends_seven ≡ ok (sent, 0)
unfolding sent add_event
sent-added = rw one_event-added refl

waiting-added : add_event sent 1 receives_any ≡ ok (waiting, 1)
unfolding waiting sent add_event entered enter_caches update_acyclicity_after_add_event
waiting-added = rw two_events-added refl

received-assigned : set_reads_from_source waiting 1 (from_send 0) ≡ ok received
unfolding one_event two_events received waiting sent add_event entered enter_caches
    update_acyclicity_after_add_event Graph.add_event Graph.next_event_index
    Graph.ensure_thread_storage Graph.seek Graph.append_event_unchecked Indices.contains
    set_reads_from_source current_reads_from_source update_send_reader_state drop_source take_source
    counts_readers lower raise update_acyclicity_after_rf_assignment is_pending
    invalidate_known_acyclicity Graph.set_reads_from_source ReadsFrom.find ReadsFrom.assign
received-assigned = refl

-- The flag stays up along the run.
still_known : received.known_acyclic ≡ true
unfolding one_event two_events received waiting sent add_event entered enter_caches
    update_acyclicity_after_add_event Graph.add_event Graph.next_event_index
    Graph.ensure_thread_storage Graph.seek Graph.append_event_unchecked Indices.contains
    set_reads_from_source current_reads_from_source update_send_reader_state drop_source take_source
    counts_readers lower raise update_acyclicity_after_rf_assignment is_pending
    invalidate_known_acyclicity Graph.set_reads_from_source ReadsFrom.find ReadsFrom.assign
still_known = refl

sent-Reached : Reached sent
sent-Reached = add 0 0 sends_seven start sent-added

waiting-Reached : Reached waiting
waiting-Reached = add 1 1 receives_any sent-Reached waiting-added

known_acyclic-IsAcyclic_example : IsAcyclic (Porf received.graph)
known_acyclic-IsAcyclic_example =
    known_acyclic-IsAcyclic received (assign 1 (from_send 0) waiting-Reached received-assigned)
      still_known

add_event-IsSound_example : IsWellFormed waiting.graph × IsSound waiting
add_event-IsSound_example =
    add_event-IsSound sent waiting 1 1 receives_any (Reached-IsSound sent sent-Reached).0
      (Reached-IsSound sent sent-Reached).1 waiting-added

set_reads_from_source-IsSound_example : IsWellFormed received.graph × IsSound received
set_reads_from_source-IsSound_example =
    set_reads_from_source-IsSound waiting received 1 (from_send 0)
      (Reached-IsSound waiting waiting-Reached).0 (Reached-IsSound waiting waiting-Reached).1
      received-assigned

Reached-IsCached_example : IsCached received
Reached-IsCached_example =
    Reached-IsCached received (assign 1 (from_send 0) waiting-Reached received-assigned)
