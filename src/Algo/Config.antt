-- ===== src/Algo/Config.antt =====
-- include/dpor/algo/dpor.hpp, DporConfigT and the calls of its callbacks. A callback is code of the
-- user: its call has an outcome. A thread function is a function, as its contract asks. An observer that
-- keeps a state is a function of all that it was shown, the last one first.
use cpp_dpor.Prelude.{ℕ, Bool, true, false, ◌&&◌, List, Option, some, none}
use cpp_dpor.Errors.{
  Result, ok, throw, throw_if, UserCallbackKind, terminal_observer, progress_observer,
  precondition_error, user_code_error,
}
use cpp_dpor.Event.{EventLabel, ObservedValue, CommunicationModel}
use cpp_dpor.Program.{ThreadMap}
use cpp_dpor.Exploration.{ExplorationGraph}
use cpp_dpor.Algo.Results.{ProgressState, TerminalExecutionKind, TerminalExecutionAction, continue}

-- How a call of user code ends: it returns, throws a `user_code_error`, or throws something else.
pub data Outcome {ℓ} (A : Type ℓ) : Type ℓ where
  returns : A → Outcome A
  rethrows : UserCallbackKind → Option ℕ → Outcome A
  throws : Outcome A

unfoldable pub invoke_user_code {ℓ} :
    {A : Type ℓ} → UserCallbackKind → Option ℕ → Outcome A → Result A
invoke_user_code kind tid (returns a) = ok a
invoke_user_code kind tid (rethrows origin thread) = throw (user_code_error origin thread)
invoke_user_code kind tid throws = throw (user_code_error kind tid)

-- `operator==` and `operator<` of ValueT.
pub record Comparison {ℓ} (V : Type ℓ) : Type ℓ where
  pub same : V → V → Bool
  pub less : V → V → Bool

-- The fields that the sequential executor sets; the others keep their defaults.
pub record ProgressSnapshot : Type 0 where
  pub state : ProgressState
  pub elapsed : ℕ
  pub terminal_executions : ℕ
  pub full_executions : ℕ
  pub blocked_executions : ℕ
  pub error_executions : ℕ
  pub depth_limit_executions : ℕ
  pub thread_event_limit_executions : ℕ
  pub max_thread_event_depth : ℕ
  pub active_workers : ℕ

module _ {ℓ} (V : Type ℓ) where
  -- `ThreadFunctionT`: from the trace and the step.
  abbrev pub ThreadFunction : Type ℓ
  ThreadFunction = List (ObservedValue V) → ℕ → Outcome (Option (EventLabel V))

  pub record TerminalExecution : Type ℓ where
    pub graph : ExplorationGraph V
    pub kind : TerminalExecutionKind

  abbrev pub TerminalExecutionObserver : Type ℓ
  TerminalExecutionObserver = List TerminalExecution → Outcome TerminalExecutionAction

  -- `progress_report_interval` and the readings of the clock are in one unit of time.
  pub record DporConfig : Type ℓ where
    pub program : ThreadMap ThreadFunction
    pub max_depth : ℕ
    pub max_thread_events : ℕ
    pub communication_model : CommunicationModel
    pub on_terminal_execution : Option TerminalExecutionObserver
    pub on_progress : Option (List ProgressSnapshot → Outcome (Unit {0}))
    pub progress_report_interval : ℕ
    pub on_execution : Option TerminalExecutionObserver

abbrev pub is_some {ℓ} : {A : Type ℓ} → Option A → Bool
is_some none = false
is_some (some a) = true

module _ {ℓ} {V : Type ℓ} where
  unfoldable pub validate_terminal_observer_config : DporConfig V → Result (Unit {0})
  validate_terminal_observer_config config =
      throw_if (is_some config.on_terminal_execution && is_some config.on_execution)
        precondition_error

  -- `shown` ends with the execution that is told of.
  unfoldable pub notify_terminal_execution :
      DporConfig V → List (TerminalExecution V) → Result TerminalExecutionAction
  unfolding invoke_user_code
  notify_terminal_execution config shown = elim config.on_terminal_execution [
    | some observer ↦ invoke_user_code terminal_observer none (observer shown)
    | none ↦ elim config.on_execution [
      | some observer ↦ invoke_user_code terminal_observer none (observer shown)
      | none ↦ ok continue
    ]
  ]

  unfoldable pub notify_progress : DporConfig V → List ProgressSnapshot → Result (Unit {0})
  unfolding invoke_user_code
  notify_progress config shown = elim config.on_progress [
    | none ↦ ok tt
    | some observer ↦ invoke_user_code progress_observer none (observer shown)
  ]
