-- ===== src/Algo/Executor.antt =====
-- include/dpor/algo/dpor.hpp, SequentialExecutor. The clock is a parameter: its n-th reading, each no
-- earlier than the start. The executor refuses every task, so no work is split off, and tells of
-- a fatal error without a change to its state.
use cpp_dpor.Prelude.{ℕ, ◌+◌, ◌-◌, Bool, List, [], ◌∷◌, ltb, if◌then◌else◌}
use cpp_dpor.Errors.{Result, ok, ◌>>=◌, ◌>>◌}
use cpp_dpor.Exploration.{ExplorationGraph}
use cpp_dpor.Algo.Results.{
  VerifyResult, no_result, is_stopped, stopped, increment_terminal_counts, ProgressState, running,
  progress_state_from_result_kind, TerminalExecutionKind, continue, stop,
}
use cpp_dpor.Algo.Config.{
  DporConfig, TerminalExecution, ProgressSnapshot, notify_terminal_execution, notify_progress,
  is_some,
}

-- The result, what the two observers were shown (the last one first), and the clock's state.
pub record SequentialExecutor {ℓ} (V : Type ℓ) : Type ℓ where
  pub result : VerifyResult
  pub shown : List (TerminalExecution V)
  pub reported : List ProgressSnapshot
  pub readings : ℕ
  pub start_time : ℕ
  pub next_progress_report_at : ℕ

module _ {ℓ} {V : Type ℓ} where
  abbrev pub stop_requested : SequentialExecutor V → Bool
  stop_requested ex = is_stopped ex.result.kind

  unfoldable pub executor_for : DporConfig V → (ℕ → ℕ) → SequentialExecutor V
  executor_for config clock = record {
    result = no_result;
    shown = [];
    reported = [];
    readings = 1;
    start_time = clock 0;
    next_progress_report_at =
        if ltb 0 config.progress_report_interval
        then clock 0 + config.progress_report_interval
        else clock 0;
  }

  pub make_progress_snapshot : SequentialExecutor V → ProgressState → ℕ → ProgressSnapshot
  make_progress_snapshot ex state now = record {
    state = state;
    elapsed = now - ex.start_time;
    terminal_executions = ex.result.executions_explored;
    full_executions = ex.result.full_executions_explored;
    blocked_executions = ex.result.blocked_executions_explored;
    error_executions = ex.result.error_executions_explored;
    depth_limit_executions = ex.result.depth_limit_executions_explored;
    thread_event_limit_executions = ex.result.thread_event_limit_executions_explored;
    max_thread_event_depth = ex.result.max_thread_event_depth_reached;
    active_workers = elim state [ running ↦ 1 | _ ↦ 0 ];
  }

  -- Tells the observer of the state at the reading `now`.
  unfoldable pub report :
      DporConfig V → ProgressState → ℕ → SequentialExecutor V → Result (SequentialExecutor V)
  unfolding make_progress_snapshot notify_progress
  report config state now ex = do
    let reports = make_progress_snapshot ex state now ∷ ex.reported
    notify_progress config reports
    ok (record ex { reported = reports })

  unfoldable pub maybe_report_progress :
      DporConfig V → (ℕ → ℕ) → SequentialExecutor V → Result (SequentialExecutor V)
  unfolding report
  maybe_report_progress config clock ex =
      let now = clock ex.readings in
      let read : SequentialExecutor V = record ex { readings = ex.readings + 1 } in
      let due : SequentialExecutor V = record read {
        next_progress_report_at = now + config.progress_report_interval;
      } in
      if is_some config.on_progress
      then (if ltb 0 config.progress_report_interval
          then (if ltb now ex.next_progress_report_at
              then ok read
              else report config running now due)
          else report config running now read)
      else ok ex

  unfoldable pub publish_terminal_execution :
      DporConfig V
      → SequentialExecutor V
      → ExplorationGraph V
      → TerminalExecutionKind
      → ℕ
      → Result (SequentialExecutor V)
  unfolding increment_terminal_counts notify_terminal_execution
  publish_terminal_execution config ex g kind thread_event_depth = do
    let counted = increment_terminal_counts ex.result kind thread_event_depth
    let shown = record { graph = g; kind = kind } ∷ ex.shown
    action ← notify_terminal_execution config shown
    ok (record ex {
      shown = shown;
      result = elim action [ continue ↦ counted | stop ↦ record counted { kind = stopped } ];
    })

  unfoldable pub publish_final_progress :
      DporConfig V → (ℕ → ℕ) → SequentialExecutor V → Result (SequentialExecutor V)
  unfolding report
  publish_final_progress config clock ex =
      if is_some config.on_progress
      then report config (progress_state_from_result_kind ex.result.kind) (clock ex.readings)
          (record ex { readings = ex.readings + 1 })
      else ok ex
