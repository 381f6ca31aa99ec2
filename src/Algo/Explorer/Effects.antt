-- ===== src/Algo/Explorer/Effects.antt =====
-- include/dpor/algo/dpor.hpp, DepthFirstExplorer: what each handler does to the executor.
use cpp_dpor.Prelude.{
  ℕ, ◌≡◌, inl, inr, refl, sym, ap, ◌∙◌, Bool, List, ◌∷◌, leb, Bool-cases, Option-cases, List-cases,
}
use mathlib.Core.Path.{subst}
use cpp_dpor.Errors.{ok, >>=-eq-ok, ok-injective}
use cpp_dpor.Event.{EventLabel, receive, send, nondet, block, error}
use cpp_dpor.Exploration.{ExplorationGraph}
use cpp_dpor.Exploration.Insert.{add_event}
use cpp_dpor.Exploration.History.{checkpoint, rollback}
use cpp_dpor.Exploration.Queries.{receives_in_destination}
use cpp_dpor.Algo.Results.{TerminalExecutionKind, depth_limit, failed}
use cpp_dpor.Algo.Config.{DporConfig, Comparison}
use cpp_dpor.Algo.Next.{compute_next_event}
use cpp_dpor.Algo.Children.{Reschedule, no_reschedule, ready, find_blocked_receive_reschedule_child}
use cpp_dpor.Algo.Executor.{SequentialExecutor, stop_requested, maybe_report_progress}
use cpp_dpor.Algo.Explorer.{
  visit, ExplorationFrame, ExplorationContext, context_of, DepthFirstExplorer, pop_top_frame,
  rollback_and_pop_top_frame, push_frame, push_owned_context,
}
use cpp_dpor.Algo.Explorer.Handlers.{
  publish_terminal, publish_and_pop, enter_without_next, enter_linear_child, enter_error,
  enter_choices, enter_receive, enter_send, enter_event, enter_consistent, terminal_kind,
}
use cpp_dpor.Algo.Explorer.Evolves.{
  Evolves, quiet, maybe_report_progress-same, after_report, publish-Evolves,
}

module _ {ℓ} {V : Type ℓ} (values : Comparison V) (config : DporConfig V) (clock : ℕ → ℕ)
    (thread_ids : List ℕ) where
  -- The executor of the explorer that a call returns.
  pub returned :
      (ex : SequentialExecutor V) {e e' : DepthFirstExplorer V}
      → e.executor ≡ ex
      → ok e ≡ ok e'
      → Evolves config thread_ids ex e'.executor
  returned ex is_ex same =
      let is_same =
        ap (λ (x : DepthFirstExplorer V). x.executor) (sym (ok-injective same)) ∙ is_ex in
      quiet (ap (λ (x : SequentialExecutor V). x.result) is_same)
        (ap (λ (x : SequentialExecutor V). x.shown) is_same)

  module _ (frames : List (ExplorationFrame V)) (contexts : List (ExplorationContext V)) where
    publish_and_pop-Evolves :
        (kind : TerminalExecutionKind) (ex : SequentialExecutor V) (g : ExplorationGraph V)
        (frame : ExplorationFrame V) (e' : DepthFirstExplorer V)
        → publish_and_pop values config clock thread_ids kind ex g frame frames contexts ≡ ok e'
        → Evolves config thread_ids ex e'.executor
    unfolding publish_and_pop publish_terminal pop_top_frame
    publish_and_pop-Evolves kind ex g frame e' ran =
        let (ex', e, f) =
          >>=-eq-ok (publish_terminal values config clock thread_ids ex g kind) _ ran in
        subst (Evolves config thread_ids ex)
          (ap (λ (x : DepthFirstExplorer V). x.executor) (ok-injective f))
          (publish-Evolves config thread_ids ex ex' g kind e)

    pub rollback_and_pop-Evolves :
        (ex : SequentialExecutor V) (g : ExplorationGraph V) (frame : ExplorationFrame V)
        (e' : DepthFirstExplorer V)
        → rollback_and_pop_top_frame ex g frame frames contexts ≡ ok e'
        → Evolves config thread_ids ex e'.executor
    unfolding rollback_and_pop_top_frame pop_top_frame
    rollback_and_pop-Evolves ex g frame e' ran =
        let (g', e, f) = >>=-eq-ok (rollback g frame.checkpoint) _ ran in returned ex refl f

    enter_linear_child-Evolves :
        (t : ℕ) (label : EventLabel V) (ex : SequentialExecutor V) (g : ExplorationGraph V)
        (frame : ExplorationFrame V) (e' : DepthFirstExplorer V)
        → enter_linear_child values config clock thread_ids t label ex g frame frames contexts
          ≡ ok e'
        → Evolves config thread_ids ex e'.executor
    unfolding enter_linear_child push_frame
    enter_linear_child-Evolves t label ex g frame e' ran =
        let (added, e, f) = >>=-eq-ok (add_event g t label) _ ran in returned ex refl f

    enter_error-Evolves :
        (t : ℕ) (label : EventLabel V) (ex : SequentialExecutor V) (g : ExplorationGraph V)
        (frame : ExplorationFrame V) (e' : DepthFirstExplorer V)
        → enter_error values config clock thread_ids t label ex g frame frames contexts ≡ ok e'
        → Evolves config thread_ids ex e'.executor
    unfolding enter_error publish_terminal pop_top_frame
    enter_error-Evolves t label ex g frame e' ran =
        let (added, e, f) = >>=-eq-ok (add_event g t label) _ ran in
        let (ex', p, f') =
          >>=-eq-ok (publish_terminal values config clock thread_ids ex added.0 failed) _ f in
        let (restored, r, f'') = >>=-eq-ok (rollback added.0 (checkpoint g)) _ f' in
        subst (Evolves config thread_ids ex)
          (ap (λ (x : DepthFirstExplorer V). x.executor) (ok-injective f''))
          (publish-Evolves config thread_ids ex ex' added.0 failed p)

    enter_send-Evolves :
        (t : ℕ) (label : EventLabel V) (ex : SequentialExecutor V) (g : ExplorationGraph V)
        (frame : ExplorationFrame V) (e' : DepthFirstExplorer V)
        → enter_send values config clock thread_ids t label ex g frame frames contexts ≡ ok e'
        → Evolves config thread_ids ex e'.executor
    unfolding enter_send
    enter_send-Evolves t label ex g frame e' ran =
        let (added, e, f) = >>=-eq-ok (add_event g t label) _ ran in
        let (receives, r, f') = >>=-eq-ok (receives_in_destination added.0 added.1) _ f in
        returned ex refl f'

    enter_event-Evolves :
        (t : ℕ) (label : EventLabel V) (ex : SequentialExecutor V) (g : ExplorationGraph V)
        (frame : ExplorationFrame V) (e' : DepthFirstExplorer V)
        → enter_event values config clock thread_ids t label ex g frame frames contexts ≡ ok e'
        → Evolves config thread_ids ex e'.executor
    unfolding enter_event enter_choices enter_receive
    enter_event-Evolves t (error m) ex g frame e' ran =
        enter_error-Evolves t (error m) ex g frame e' ran
    enter_event-Evolves t (receive r) ex g frame e' ran = returned ex refl ran
    enter_event-Evolves t (send s) ex g frame e' ran =
        enter_send-Evolves t (send s) ex g frame e' ran
    enter_event-Evolves t block ex g frame e' ran =
        enter_linear_child-Evolves t block ex g frame e' ran
    enter_event-Evolves t (nondet c) ex g frame e' ran = elim (List-cases c.choices) [
      | inl empty ↦
          enter_linear_child-Evolves t (nondet c) ex g frame e' (rw (empty, enter_event) at ran)
      | inr (x, xs, some_choice) ↦ returned ex refl (rw (some_choice, enter_event) at ran)
    ]

    after_search :
        (found : Reschedule V) (suppressed : Bool) (ex : SequentialExecutor V)
        (g : ExplorationGraph V) (frame : ExplorationFrame V) (e' : DepthFirstExplorer V)
        → elim found [
          | Reschedule.stop_requested ↦
              ok (record { executor = ex; contexts = context_of g (frame ∷ frames) ∷ contexts })
          | ready child ↦ ok (
              push_owned_context ex child frame.dpor_tree_depth visit
                (pop_top_frame ex g frames contexts).contexts)
          | no_reschedule ↦
              publish_and_pop values config clock thread_ids
                (terminal_kind values config clock thread_ids g suppressed)
                ex
                g
                frame
                frames
                contexts
        ]
          ≡ ok e'
        → Evolves config thread_ids ex e'.executor
    unfolding push_owned_context
    after_search no_reschedule suppressed ex g frame e' ran =
        publish_and_pop-Evolves _ ex g frame e' ran
    after_search Reschedule.stop_requested suppressed ex g frame e' ran = returned ex refl ran
    after_search (ready child) suppressed ex g frame e' ran = returned ex refl ran

    enter_without_next-Evolves :
        (suppressed : Bool) (ex : SequentialExecutor V) (g : ExplorationGraph V)
        (frame : ExplorationFrame V) (e' : DepthFirstExplorer V)
        → enter_without_next values config clock thread_ids suppressed ex g frame frames contexts
          ≡ ok e'
        → Evolves config thread_ids ex e'.executor
    unfolding enter_without_next
    enter_without_next-Evolves suppressed ex g frame e' ran =
        let (found, e, f) =
          >>=-eq-ok
            (find_blocked_receive_reschedule_child config.program g (stop_requested ex) thread_ids)
            _ ran in
        after_search found suppressed ex g frame e' f

    pub enter_consistent-Evolves :
        (ex : SequentialExecutor V) (g : ExplorationGraph V) (frame : ExplorationFrame V)
        (e' : DepthFirstExplorer V)
        → enter_consistent values config clock thread_ids ex g frame frames contexts ≡ ok e'
        → Evolves config thread_ids ex e'.executor
    unfolding enter_consistent
    enter_consistent-Evolves ex g frame e' ran =
        let (ex', e, f) = >>=-eq-ok (maybe_report_progress config clock ex) _ ran in
        after_report config thread_ids ex ex' e'.executor
          (maybe_report_progress-same config thread_ids clock ex ex' e)
          (elim (Bool-cases (stop_requested ex')) [
            | inl stops ↦ returned ex' refl (rw stops at f)
            | inr runs_on ↦ elim (Bool-cases (leb config.max_depth frame.dpor_tree_depth)) [
              | inl deep ↦
                  publish_and_pop-Evolves depth_limit ex' g frame e' (rw (runs_on, deep) at f)
              | inr shallow ↦
                  let (found, c, f') =
                    >>=-eq-ok
                      (compute_next_event config.program g thread_ids config.max_thread_events) _
                      (rw (runs_on, shallow) at f) in
                  elim (Option-cases found.next) [
                    | inl at_end ↦
                        enter_without_next-Evolves found.suppressed_by_thread_event_limit ex' g
                          frame e' (rw at_end at f')
                    | inr (next, is_next) ↦
                        enter_event-Evolves next.0 next.1 ex' g frame e' (rw is_next at f')
                  ]
            ]
          ])
