-- ===== src/Algo/Explorer/Loop.antt =====
-- include/dpor/algo/dpor.hpp, DepthFirstExplorer::run_loop, visit_impl and verify. A handler that throws
-- ends the loop: the error is rethrown once the contexts are gone.
use cpp_dpor.Prelude.{ℕ, zero, suc, List, [], ◌∷◌, Option, some, none, if◌then◌else◌}
use cpp_dpor.Errors.{Result, ok, throw, ◌>>◌, ◌>>=◌}
use cpp_dpor.Exploration.{ExplorationGraph, empty}
use cpp_dpor.Algo.Config.{DporConfig, Comparison}
use cpp_dpor.Algo.Executor.{SequentialExecutor, stop_requested}
use cpp_dpor.Algo.Config.{validate_terminal_observer_config}
use cpp_dpor.Algo.Next.{sorted_thread_ids}
use cpp_dpor.Algo.Executor.{executor_for, publish_final_progress}
use cpp_dpor.Algo.Explorer.{
  enter, exit_linear_child, resume_nd, resume_receive, resume_send_revisits, context_of,
  DepthFirstExplorer, enter_frame, rollback_and_pop_top_frame, unwind_one_step, ExplorationTaskMode,
  visit, visit_if_consistent,
}
use cpp_dpor.Algo.Explorer.Handlers.{
  Handler, handle_enter_frame, handle_resume_nd_frame, handle_resume_receive_frame,
  handle_resume_send_revisits_frame,
}

module _ {ℓ} {V : Type ℓ} (values : Comparison V) (config : DporConfig V) (clock : ℕ → ℕ) where
  module _ (thread_ids : List ℕ) where
    -- `switch (current_context().frames.back().kind)`
    unfoldable pub handle_frame : Handler values config clock thread_ids
    handle_frame ex g frame = elim frame.kind [
      | enter ↦ handle_enter_frame values config clock thread_ids ex g frame
      | exit_linear_child ↦ rollback_and_pop_top_frame ex g frame
      | resume_nd ↦ handle_resume_nd_frame values config clock thread_ids ex g frame
      | resume_receive ↦ handle_resume_receive_frame values config clock thread_ids ex g frame
      | resume_send_revisits ↦
          handle_resume_send_revisits_frame values config clock thread_ids ex g frame
    ]

    -- The body of the loop, for an explorer with a context.
    unfoldable pub step : DepthFirstExplorer V → Result (DepthFirstExplorer V)
    unfolding unwind_one_step handle_frame
    step e = if stop_requested e.executor then unwind_one_step e else elim e.contexts [
      | [] ↦ ok e
      | context ∷ contexts ↦ elim context.frames [
        | [] ↦ ok (record e { contexts = contexts })
        | frame ∷ frames ↦ handle_frame e.executor context.graph frame frames contexts
      ]
    ]

    -- `while (!contexts_.empty())`; none says that the fuel ran out.
    unfoldable pub run_loop : ℕ → DepthFirstExplorer V → Option (Result (SequentialExecutor V))
    unfolding step
    run_loop zero e = elim e.contexts [ [] ↦ some (ok e.executor) | context ∷ contexts ↦ none ]
    run_loop (suc fuel) e = elim e.contexts [
      | [] ↦ some (ok e.executor)
      | context ∷ contexts ↦ elim (step e) [
        | throw thrown ↦ some (throw thrown)
        | ok e' ↦ run_loop fuel e'
      ]
    ]

    abbrev pub start_at :
        SequentialExecutor V → ExplorationGraph V → ℕ → ExplorationTaskMode → DepthFirstExplorer V
    start_at ex g depth mode = record {
      executor = ex;
      contexts = context_of g (enter_frame depth mode ∷ []) ∷ [];
    }

    -- What follows the exploration in `verify`.
    unfoldable pub finish :
        Option (Result (SequentialExecutor V)) → Option (Result (SequentialExecutor V))
    finish none = none
    finish (some explored) = some (explored >>= publish_final_progress config clock)

    unfoldable pub visit_impl :
        ℕ → SequentialExecutor V → ExplorationGraph V → ℕ → Option (Result (SequentialExecutor V))
    unfolding run_loop
    visit_impl fuel ex g depth = run_loop fuel (start_at ex g depth visit)

    unfoldable pub visit_if_consistent_impl :
        ℕ → SequentialExecutor V → ExplorationGraph V → ℕ → Option (Result (SequentialExecutor V))
    unfolding run_loop
    visit_if_consistent_impl fuel ex g depth =
        run_loop fuel (start_at ex g depth visit_if_consistent)

  -- The executor at the end, whose result is returned.
  unfoldable pub verify : ℕ → Option (Result (SequentialExecutor V))
  unfolding finish visit_impl
  verify fuel =
      elim (validate_terminal_observer_config config >> sorted_thread_ids config.program) [
        | throw thrown ↦ some (throw thrown)
        | ok thread_ids ↦
            finish thread_ids (visit_impl thread_ids fuel (executor_for config clock) empty 0)
      ]
