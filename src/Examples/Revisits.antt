-- ===== src/Examples/Revisits.antt =====
-- The theorems on the pieces of include/dpor/algo/dpor.hpp at small programs and graphs.
use cpp_dpor.Prelude.{
  ℕ, ◌≤◌, ◌<◌, ◌≡◌, ◌↔◌, refl, Bool, true, false, List, [], ◌∷◌, ◌++◌, Option, some, none, arith,
  ltb, ◌==◌, if◌then◌else◌, ==_refl, length, elem,
}
use cpp_dpor.Errors.{Result, ok, throw, thread_function, user_code_error}
use cpp_dpor.Event.{
  EventLabel, receive, send, block, blocking, async, match_any_value, make_receive_label,
}
use cpp_dpor.Program
use cpp_dpor.Program.{ThreadMap, from_list, no_threads}
use cpp_dpor.Graph
use cpp_dpor.Graph.ReadsFrom
use cpp_dpor.Graph.Indices
use cpp_dpor.Algo.Masked
use cpp_dpor.Algo.Revisit
use cpp_dpor.Algo.Tiebreaker
use cpp_dpor.Graph.ReadsFrom.{from_send}
use cpp_dpor.Exploration.{ExplorationGraph, empty}
use cpp_dpor.Exploration
use cpp_dpor.Exploration.Copies
use cpp_dpor.Exploration.Queries
use cpp_dpor.Exploration.Porf
use cpp_dpor.Exploration.{event_count}
use cpp_dpor.Exploration.Restrict.{restrict_from_keep_mask}
use cpp_dpor.Exploration.Restrict.Size.{restrict_from_keep_mask_lem, trues, placed, kept}
use cpp_dpor.Relation.Closure.Search.{Walk, marked}
use cpp_dpor.Algo.Masked.{MaskedPorfContext, reset, keeps, successors_of}
use cpp_dpor.Algo.Masked.Reach.{reachable_from}
use cpp_dpor.Algo.Masked.Reach.Laws.{reachable_from_lem}
use cpp_dpor.Algo.Children.{next_backward_revisit_child}
use cpp_dpor.Algo.Children.Cursor.{next_backward_revisit_child-cursor}
use cpp_dpor.Algo.Children.Revisited.{IsRevisit, next_backward_revisit_child-IsRevisit}
use cpp_dpor.Graph.{event}
use cpp_dpor.Event.{Event, SendLabel, as_send}
use cpp_dpor.Algo.Config.{Comparison, ThreadFunction, returns}
use cpp_dpor.Algo.Choices.{erase_duplicate_nd_choices, is_among}
use cpp_dpor.Algo.Choices.Laws.{IsEquality, erase_duplicate_nd_choices_lem}
use cpp_dpor.Algo.Next.Sends.{Serves, Served, compatible_unread_send_ids_lem}
use cpp_dpor.Event.{ReceiveLabel}
use cpp_dpor.Algo.Next.{
  compatible_unread_send_ids, has_compatible_unread_send, NextEventResult, compute_next_event,
}
use cpp_dpor.Algo.Next.Laws.{IsNext, compute_next_event_lem, IsThrown, compute_next_event-IsThrown}

abbrev numbers : Comparison ℕ
numbers = record { same = ◌==◌; less = ltb }

numbers-IsEquality : IsEquality numbers
numbers-IsEquality = record {
  reflexive = ==_refl;
  symmetric = λ v w h. ground arith;
  transitive = λ u v w h k. ground arith;
}

erase_duplicate_nd_choices_lem_example :
    (erase_duplicate_nd_choices numbers (3 ∷ 4 ∷ 3 ∷ 4 ∷ []) ≡ (
      if is_among numbers 4 (3 ∷ 4 ∷ 3 ∷ [])
      then erase_duplicate_nd_choices numbers (3 ∷ 4 ∷ 3 ∷ [])
      else erase_duplicate_nd_choices numbers (3 ∷ 4 ∷ 3 ∷ []) ++ 4 ∷ []))
    × (is_among numbers 4 (erase_duplicate_nd_choices numbers (3 ∷ 4 ∷ 3 ∷ []))
        ≡ is_among numbers 4 (3 ∷ 4 ∷ 3 ∷ []))
erase_duplicate_nd_choices_lem_example =
    erase_duplicate_nd_choices_lem numbers numbers-IsEquality (3 ∷ 4 ∷ 3 ∷ []) 4

abbrev says : EventLabel ℕ → ThreadFunction ℕ
says label trace step = returns (if step == 0 then some label else none)

abbrev greeting : EventLabel ℕ
greeting = send (record { destination = 2; value = 7 })

abbrev greeter : ThreadMap (ThreadFunction ℕ)
greeter = from_list ((1, says greeting) ∷ []) no_threads

abbrev first_event : NextEventResult ℕ
first_event = record { next = some (1, greeting); suppressed_by_thread_event_limit = false }

greeter_sends : compute_next_event greeter empty (1 ∷ []) 0 ≡ ok first_event
unfolding compute_next_event from_list no_threads Program.at Queries.thread_trace
    Queries.thread_is_terminated Queries.thread_event_count
greeter_sends = refl

compute_next_event_lem_example : IsNext greeter empty 0 false (1 ∷ []) first_event
compute_next_event_lem_example =
    compute_next_event_lem greeter empty 0 (1 ∷ []) first_event greeter_sends

abbrev idler : ThreadMap (ThreadFunction ℕ)
idler = from_list ((1, says block) ∷ []) no_threads

idler_throws :
    compute_next_event idler empty (1 ∷ []) 0 ≡ throw (user_code_error thread_function (some 1))
unfolding compute_next_event from_list no_threads Program.at Queries.thread_trace
    Queries.thread_is_terminated Queries.thread_event_count
idler_throws = refl

compute_next_event-IsThrown_example :
    IsThrown idler empty 0 (user_code_error thread_function (some 1)) (1 ∷ [])
compute_next_event-IsThrown_example =
    compute_next_event-IsThrown idler empty 0 (1 ∷ []) (user_code_error thread_function (some 1))
      idler_throws

-- Thread 1 has sent to thread 2, which has received.
abbrev exchanged : ExplorationGraph ℕ
exchanged = record {
  graph = record {
    events =
        record { thread = 1; index = 0; label = greeting }
        ∷ record {
          thread = 2;
          index = 0;
          label = receive (make_receive_label match_any_value blocking);
        }
        ∷ [];
    reads_from = record { entries = none ∷ some (from_send 0) ∷ []; size = 1 };
    next_event_index_by_thread = 0 ∷ 1 ∷ 1 ∷ [];
    used_event_indices_by_thread =
        record { dense_end = 0; sparse = [] }
        ∷ record { dense_end = 1; sparse = [] }
        ∷ record { dense_end = 1; sparse = [] }
        ∷ [];
  };
  thread_state =
      record { event_count = 0; last_event_id = none }
      ∷ record { event_count = 1; last_event_id = some 0 }
      ∷ record { event_count = 1; last_event_id = some 1 }
      ∷ [];
  thread_event_ids = [] ∷ (0 ∷ []) ∷ (1 ∷ []) ∷ [];
  receive_event_ids_by_thread = [] ∷ [] ∷ (1 ∷ []) ∷ [];
  send_event_ids = 0 ∷ [];
  send_reader_counts = 1 ∷ 0 ∷ [];
  unread_send_mask = false ∷ false ∷ [];
  known_acyclic = true;
  pending_fresh_receive_id = none;
  event_undo_log = [];
  rf_undo_log = [];
}

abbrev both : List Bool
both = true ∷ true ∷ []

abbrev both_kept : MaskedPorfContext
both_kept = record {
  kept_events_by_thread = [] ∷ (0 ∷ []) ∷ (1 ∷ []) ∷ [];
  kept_position_in_thread = some 0 ∷ some 0 ∷ [];
  consumed_send_mask = true ∷ false ∷ [];
  rf_consumer = some 1 ∷ none ∷ [];
  extra_rf_consumers = [];
  fifo_consumer = none ∷ none ∷ [];
  channels = [];
}

both_kept_made : reset exchanged both false ≡ ok both_kept
unfolding reset ReadsFrom.to_list
both_kept_made = refl

first_kept : keeps both 0 ≡ true
unfolding keeps
first_kept = refl

reachable_from_lem_example :
    (flags : List Bool) × (reachable_from exchanged both both_kept 0 ≡ ok flags)
    × ((b : ℕ)
        → (marked flags b ≡ true) ↔ (
            (p : ℕ) × (elem p (successors_of exchanged both_kept 0) ≡ true)
            × Walk (successors_of exchanged both_kept) p b))
reachable_from_lem_example =
    reachable_from_lem exchanged both false both_kept both_kept_made 0 first_kept

-- Event 0 goes, event 1 stays.
abbrev second_only : List Bool
second_only = false ∷ true ∷ []

abbrev restriction : Result (ExplorationGraph ℕ)
restriction = restrict_from_keep_mask exchanged second_only

abbrev or_empty : Result (ExplorationGraph ℕ) → ExplorationGraph ℕ
or_empty (ok g) = g
or_empty (throw e) = empty

abbrev is_ok : Result (ExplorationGraph ℕ) → Bool
is_ok (ok g) = true
is_ok (throw e) = false

or_empty_lem : (r : Result (ExplorationGraph ℕ)) → is_ok r ≡ true → r ≡ ok (or_empty r)
or_empty_lem (ok g) h = refl
or_empty_lem (throw e) h = cc

restriction_returns : is_ok restriction ≡ true
unfolding restrict_from_keep_mask Graph.event Graph.add_event Graph.seek Indices.contains
    ReadsFrom.to_list
restriction_returns = refl

restrict_from_keep_mask_lem_example :
    (length second_only ≡ event_count exchanged)
    × (event_count (or_empty restriction) ≡ trues second_only)
    × (placed (or_empty restriction).graph.events ≡ kept second_only exchanged.graph.events)
restrict_from_keep_mask_lem_example =
    restrict_from_keep_mask_lem exchanged (or_empty restriction) second_only
      (or_empty_lem restriction restriction_returns)

-- Thread 3 has sent to thread 2 since.
abbrev contested : ExplorationGraph ℕ
contested = record exchanged {
  graph = record exchanged.graph {
    events =
        exchanged.graph.events
        ++ record { thread = 3; index = 0; label = send (record { destination = 2; value = 8 }) }
          ∷ [];
    next_event_index_by_thread = 0 ∷ 1 ∷ 1 ∷ 1 ∷ [];
    used_event_indices_by_thread =
        exchanged.graph.used_event_indices_by_thread ++ record { dense_end = 1; sparse = [] } ∷ [];
  };
  thread_state = exchanged.thread_state ++ record { event_count = 1; last_event_id = some 2 } ∷ [];
  thread_event_ids = [] ∷ (0 ∷ []) ∷ (1 ∷ []) ∷ (2 ∷ []) ∷ [];
  receive_event_ids_by_thread = [] ∷ [] ∷ (1 ∷ []) ∷ [] ∷ [];
  send_event_ids = 0 ∷ 2 ∷ [];
  send_reader_counts = 1 ∷ 0 ∷ 0 ∷ [];
  unread_send_mask = false ∷ false ∷ true ∷ [];
}

abbrev wants : ReceiveLabel ℕ
wants = make_receive_label match_any_value blocking

compatible_unread_send_ids_lem_example :
    ((id : ℕ)
      → (elem id (compatible_unread_send_ids contested 2 wants) ≡ true)
        ↔ Serves contested 2 wants id)
    × ((has_compatible_unread_send contested 2 wants ≡ true) ↔ Served contested 2 wants)
compatible_unread_send_ids_lem_example = compatible_unread_send_ids_lem contested 2 wants

abbrev revisit : Result (ℕ × Option (ExplorationGraph ℕ))
revisit = next_backward_revisit_child numbers contested 2 async (1 ∷ []) 0

abbrev next_of : Result (ℕ × Option (ExplorationGraph ℕ)) → ℕ × Option (ExplorationGraph ℕ)
next_of (ok r) = r
next_of (throw e) = (0, none)

abbrev child_of : Result (ℕ × Option (ExplorationGraph ℕ)) → ExplorationGraph ℕ
child_of (ok (i, some g)) = g
child_of _ = empty

abbrev has_child : Result (ℕ × Option (ExplorationGraph ℕ)) → Bool
has_child (ok (i, some g)) = true
has_child _ = false

next_of_lem :
    (r : Result (ℕ × Option (ExplorationGraph ℕ)))
    → has_child r ≡ true
    → (r ≡ ok (next_of r)) × ((next_of r).1 ≡ some (child_of r))
next_of_lem (ok (i, some g)) h = (refl, refl)
next_of_lem (ok (i, none)) h = cc
next_of_lem (throw e) h = cc

revisit_found : has_child revisit ≡ true
unfolding next_backward_revisit_child Graph.event Porf.porf_contains ReadsFrom.to_list
    Revisit.revisit_condition Queries.inserted_before_or_equal ReadsFrom.find
    Tiebreaker.get_cons_tiebreaker_masked reset reachable_from Graph.is_valid_event_id
    Queries.filter Masked.send_is_unread restrict_from_keep_mask Graph.add_event Graph.seek
    Indices.contains Exploration.update_acyclicity_after_add_event
    Copies.rebind_rf_preserving_known_acyclicity Graph.set_reads_from_source ReadsFrom.assign
revisit_found = refl

next_backward_revisit_child-cursor_example : (0 < (next_of revisit).0) × ((next_of revisit).0 ≤ 1)
next_backward_revisit_child-cursor_example =
    next_backward_revisit_child-cursor numbers contested 2 async (1 ∷ []) 0 (next_of revisit)
      (child_of revisit) (next_of_lem revisit revisit_found).0 (next_of_lem revisit revisit_found).1

next_backward_revisit_child-IsRevisit_example :
    (sender : Event ℕ) × (s : SendLabel ℕ) × (event contested.graph 2 ≡ ok sender)
    × (as_send sender ≡ some s)
    × (recv_id : ℕ) × (elem recv_id (1 ∷ []) ≡ true)
    × IsRevisit numbers contested async s.value 2 recv_id (child_of revisit)
next_backward_revisit_child-IsRevisit_example =
    next_backward_revisit_child-IsRevisit numbers contested async 2 (1 ∷ []) 0 (next_of revisit)
      (child_of revisit) (next_of_lem revisit revisit_found).0 (next_of_lem revisit revisit_found).1
