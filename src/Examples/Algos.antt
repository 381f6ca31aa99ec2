-- ===== src/Examples/Algos.antt =====
-- The theorems on include/dpor/algo/dpor.hpp at a program of two threads: the first sends, the second
-- waits for a message.
use cpp_dpor.Prelude.{
  ℕ, ◌≤◌, ◌≡◌, refl, Bool, true, false, List, [], ◌∷◌, Option, some, none, ltb, ◌==◌, if◌then◌else◌,
}
use cpp_dpor.Errors.{Result, ok, throw}
use cpp_dpor.Event.{EventLabel, receive, send, blocking, async, match_any_value, make_receive_label}
use cpp_dpor.Program.{from_list, no_threads}
use cpp_dpor.Algo.Config.{returns, Comparison, DporConfig, ThreadFunction}
use cpp_dpor.Algo.Executor.{SequentialExecutor, executor_for}
use cpp_dpor.Algo.Next.{sorted_thread_ids}
use cpp_dpor.Algo.Explorer.Runs.{Accounts, Heard, verify-Accounts, verify-Heard}
use cpp_dpor.Algo.Explorer.Loop.{verify}
use cpp_dpor.Algo.Explorer.Terminates.{verify_lem}
use cpp_dpor.Algo.Children
use cpp_dpor.Algo.Config
use cpp_dpor.Algo.Executor
use cpp_dpor.Algo.Explorer
use cpp_dpor.Algo.Explorer.Handlers
use cpp_dpor.Algo.Next
use cpp_dpor.Consistency
use cpp_dpor.Consistency.Validate
use cpp_dpor.Exploration
use cpp_dpor.Exploration.History
use cpp_dpor.Exploration.Insert
use cpp_dpor.Exploration.Queries
use cpp_dpor.Graph
use cpp_dpor.Graph.Indices
use cpp_dpor.Graph.ReadsFrom
use cpp_dpor.Program

abbrev once : EventLabel ℕ → ThreadFunction ℕ
once label trace step = returns (if step == 0 then some label else none)

abbrev sender : ThreadFunction ℕ
sender = once (send (record { destination = 2; value = 7 }))

abbrev receiver : ThreadFunction ℕ
receiver = once (receive (make_receive_label match_any_value blocking))

abbrev numbers : Comparison ℕ
numbers = record { same = ◌==◌; less = ltb }

abbrev ping : DporConfig ℕ
ping = record {
  program = from_list ((1, sender) ∷ (2, receiver) ∷ []) no_threads;
  max_depth = 1000;
  max_thread_events = 0;
  communication_model = async;
  on_terminal_execution = none;
  on_progress = none;
  progress_report_interval = 1000;
  on_execution = none;
}

abbrev returns_normally : Option (Result (SequentialExecutor ℕ)) → Bool
returns_normally none = false
returns_normally (some (throw e)) = false
returns_normally (some (ok ex)) = true

abbrev ticks : ℕ → ℕ
ticks n = n

verify_lem_example :
    (fuel : ℕ) × (r : Result (SequentialExecutor ℕ)) × ((n : ℕ)
      → fuel ≤ n
      → verify numbers ping ticks n ≡ some r)
verify_lem_example = verify_lem numbers ping ticks

ping_runs : returns_normally (verify numbers ping ticks 40) ≡ true
unfolding verify Config.validate_terminal_observer_config Next.sorted_thread_ids
    Program.validate_compact_thread_ids Program.from_list Program.no_threads Program.assigned
    Queries.thread_is_terminated Program.at Queries.thread_trace Queries.thread_event_count
    Queries.receives_in_destination Queries.any_unread_send History.rollback History.checkpoint
    Queries.filter Queries.unread_send_event_ids Exploration.set_reads_from
    Consistency.check_exploring Validate.validate_graph Insert.add_event Explorer.push_frame
    ReadsFrom.find Handlers.handle_enter_frame Children.next_backward_revisit_child
    Executor.executor_for Executor.maybe_report_progress Handlers.handle_resume_send_revisits_frame
    Graph.event Graph.add_event Indices.contains Graph.seek Handlers.handle_resume_receive_frame
    ReadsFrom.to_list Queries.last_event_id Queries.has_blocked_thread Graph.rollback_reads_from
    Graph.rollback_last_event Indices.erase Indices.insert Next.compute_next_event
    Exploration.update_acyclicity_after_add_event Next.compatible_unread_send_ids
    Graph.set_reads_from_source ReadsFrom.assign Exploration.mark_known_acyclic
    Children.find_blocked_receive_reschedule_child Executor.publish_terminal_execution
    Handlers.terminal_kind Executor.publish_final_progress
ping_runs = refl

-- What verify ends with, where it returns.
abbrev ended_with : Option (Result (SequentialExecutor ℕ)) → SequentialExecutor ℕ
ended_with none = executor_for ping ticks
ended_with (some (throw e)) = executor_for ping ticks
ended_with (some (ok ex)) = ex

ended_with_lem :
    (o : Option (Result (SequentialExecutor ℕ)))
    → returns_normally o ≡ true
    → o ≡ some (ok (ended_with o))
ended_with_lem none h = cc
ended_with_lem (some (throw e)) h = cc
ended_with_lem (some (ok ex)) h = refl

abbrev ping_end : SequentialExecutor ℕ
ping_end = ended_with (verify numbers ping ticks 40)

verify-Accounts_example :
    (thread_ids : List ℕ) × (sorted_thread_ids ping.program ≡ ok thread_ids)
    × Accounts thread_ids ping_end.result ping_end.shown
verify-Accounts_example =
    verify-Accounts numbers ping ticks 40 ping_end
      (ended_with_lem (verify numbers ping ticks 40) ping_runs)

verify-Heard_example : Heard ping ping_end.shown ping_end.result.kind
verify-Heard_example =
    verify-Heard numbers ping ticks 40 ping_end
      (ended_with_lem (verify numbers ping ticks 40) ping_runs)
