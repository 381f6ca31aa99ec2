-- ===== src/Algo/Results.antt =====
-- include/dpor/algo/dpor.hpp: VerifyResult, the kinds of a terminal execution, and their counts.
use cpp_dpor.Prelude.{ℕ, ◌+◌, Bool, true, false, ltb, if◌then◌else◌}

pub data VerifyResultKind : Type 0 where
  all_explored stopped : VerifyResultKind

pub data ProgressState : Type 0 where
  running has_stopped has_explored_all : ProgressState

pub data TerminalExecutionKind : Type 0 where
  full blocked failed depth_limit thread_event_limit : TerminalExecutionKind

pub data TerminalExecutionAction : Type 0 where
  continue stop : TerminalExecutionAction

-- Without the counters that only the parallel scheduler writes.
pub record VerifyResult : Type 0 where
  pub kind : VerifyResultKind
  pub executions_explored : ℕ
  pub full_executions_explored : ℕ
  pub blocked_executions_explored : ℕ
  pub error_executions_explored : ℕ
  pub depth_limit_executions_explored : ℕ
  pub thread_event_limit_executions_explored : ℕ
  pub max_thread_event_depth_reached : ℕ

abbrev pub no_result : VerifyResult
no_result = record {
  kind = all_explored;
  executions_explored = 0;
  full_executions_explored = 0;
  blocked_executions_explored = 0;
  error_executions_explored = 0;
  depth_limit_executions_explored = 0;
  thread_event_limit_executions_explored = 0;
  max_thread_event_depth_reached = 0;
}

abbrev pub is_stopped : VerifyResultKind → Bool
is_stopped all_explored = false
is_stopped stopped = true

abbrev pub progress_state_from_result_kind : VerifyResultKind → ProgressState
progress_state_from_result_kind stopped = has_stopped
progress_state_from_result_kind all_explored = has_explored_all

-- `switch (kind)`
unfoldable pub count_kind : TerminalExecutionKind → VerifyResult → VerifyResult
count_kind full r = record r { full_executions_explored = r.full_executions_explored + 1 }
count_kind blocked r = record r { blocked_executions_explored = r.blocked_executions_explored + 1 }
count_kind failed r = record r { error_executions_explored = r.error_executions_explored + 1 }
count_kind depth_limit r = record r {
  depth_limit_executions_explored = r.depth_limit_executions_explored + 1;
}
count_kind thread_event_limit r = record r {
  thread_event_limit_executions_explored = r.thread_event_limit_executions_explored + 1;
}

unfoldable pub increment_terminal_counts : VerifyResult → TerminalExecutionKind → ℕ → VerifyResult
unfolding count_kind
increment_terminal_counts r kind thread_event_depth = count_kind kind (record r {
  executions_explored = r.executions_explored + 1;
  max_thread_event_depth_reached =
      if ltb r.max_thread_event_depth_reached thread_event_depth
      then thread_event_depth
      else r.max_thread_event_depth_reached;
})
