-- ===== src/Algo/Explorer/Terminates.antt =====
-- include/dpor/algo/dpor.hpp, DepthFirstExplorer::run_loop and verify: how far the exploration goes.
use cpp_dpor.Prelude.{
  ℕ, zero, suc, ◌+◌, ◌-◌, ◌≤◌, ◌<◌, ◌≡◌, inl, inr, refl, sym, ap, Bool, List, [], ◌∷◌, some, arith,
  leb, if◌then◌else◌, Bool-cases, Option-cases, List-cases, length,
}
use mathlib.Core.Path.{subst}
use cpp_dpor.Errors.{Result, Result-cases, ok, throw, >>=-eq-ok, ok-injective, ◌>>=◌, ◌>>◌}
use cpp_dpor.Event.{
  EventLabel, receive, send, nondet, block, error, is_nonblocking, NondeterministicChoiceLabel,
  ReceiveLabel,
}
use cpp_dpor.Consistency.{is_consistent, check_exploring}
use cpp_dpor.Consistency.Checked.{check_exploring-graph}
use cpp_dpor.Graph.{ExecutionGraph}
use cpp_dpor.Exploration.{ExplorationGraph, event_count, empty}
use cpp_dpor.Exploration.Insert.{add_event}
use cpp_dpor.Exploration.History.{checkpoint, rollback}
use cpp_dpor.Exploration.Queries.{receives_in_destination}
use cpp_dpor.Algo.Results.{TerminalExecutionKind, depth_limit, failed}
use cpp_dpor.Algo.Config.{DporConfig, Comparison, validate_terminal_observer_config}
use cpp_dpor.Algo.Choices.{erase_duplicate_nd_choices}
use cpp_dpor.Algo.Next.{compute_next_event, compatible_unread_send_ids, sorted_thread_ids}
use cpp_dpor.Algo.Children.{Reschedule, no_reschedule, ready, find_blocked_receive_reschedule_child}
use cpp_dpor.Algo.Children.Fewer.{
  find_blocked_receive_reschedule_child-count, find_blocked_receive_reschedule_child-stop,
}
use cpp_dpor.Algo.Executor.{
  SequentialExecutor, stop_requested, maybe_report_progress, executor_for, publish_final_progress,
}
use cpp_dpor.Algo.Explorer.{
  ExplorationTaskMode, visit, visit_if_consistent, enter, exit_linear_child, ExplorationFrame,
  ExplorationContext, context_of, DepthFirstExplorer, enter_frame, pop_top_frame, push_frame,
  push_owned_context,
}
use cpp_dpor.Algo.Explorer.Handlers.{
  publish_terminal, publish_and_pop, enter_without_next, enter_linear_child, enter_error,
  enter_choices, enter_receive, enter_send, enter_event, enter_consistent, handle_enter_frame,
  terminal_kind,
}
use cpp_dpor.Algo.Explorer.Loop.{handle_frame, visit_impl, finish, verify}
use cpp_dpor.Algo.Explorer.Finishes.{
  Finishes, IsDone, explorer, frame-Finishes, stopped-Finishes, is_over, run_loop-Finishes,
}
use cpp_dpor.Algo.Explorer.Alternatives.{
  ChildrenFinish, linear_child-Finishes, choices-Finishes, sources-Finishes, revisits-Finishes,
}

module _ {ℓ} {V : Type ℓ} (values : Comparison V) (config : DporConfig V) (clock : ℕ → ℕ)
    (thread_ids : List ℕ) where
  module _ (frames : List (ExplorationFrame V)) (contexts : List (ExplorationContext V))
      (done : IsDone values config clock thread_ids frames contexts) where
    publish_and_pop-Finishes :
        (kind : TerminalExecutionKind) (ex : SequentialExecutor V) (g : ExplorationGraph V)
        (frame : ExplorationFrame V) (e' : DepthFirstExplorer V)
        → publish_and_pop values config clock thread_ids kind ex g frame frames contexts ≡ ok e'
        → Finishes values config clock thread_ids e'
    unfolding publish_and_pop
    publish_and_pop-Finishes kind ex g frame e' ran =
        let (ex', e, f) =
          >>=-eq-ok (publish_terminal values config clock thread_ids ex g kind) _ ran in
        subst (Finishes values config clock thread_ids) (ok-injective f) (done ex' g)

    -- A smaller graph at the same depth finishes.
    abbrev SmallerFinish : ExplorationGraph V → ℕ → Type ℓ
    SmallerFinish g depth =
        (ex : SequentialExecutor V) (child : ExplorationGraph V)
        (contexts' : List (ExplorationContext V))
        → event_count child < event_count g
        → IsDone values config clock thread_ids [] contexts'
        → Finishes values config clock thread_ids
            (push_owned_context ex child depth visit contexts')

    after_search :
        (found : Reschedule V) (suppressed : Bool) (ex : SequentialExecutor V)
        (g : ExplorationGraph V) (frame : ExplorationFrame V) (e' : DepthFirstExplorer V)
        → SmallerFinish g frame.dpor_tree_depth
        → find_blocked_receive_reschedule_child config.program g (stop_requested ex) thread_ids
          ≡ ok found
        → elim found [
          | Reschedule.stop_requested ↦
              ok (record { executor = ex; contexts = context_of g (frame ∷ frames) ∷ contexts })
          | ready child ↦ ok (
              push_owned_context ex child frame.dpor_tree_depth visit
                (pop_top_frame ex g frames contexts).contexts)
          | no_reschedule ↦
              publish_and_pop values config clock thread_ids
                (terminal_kind values config clock thread_ids g suppressed)
                ex
                g
                frame
                frames
                contexts
        ]
          ≡ ok e'
        → Finishes values config clock thread_ids e'
    unfolding pop_top_frame
    after_search no_reschedule suppressed ex g frame e' smaller searched ran =
        publish_and_pop-Finishes _ ex g frame e' ran
    after_search Reschedule.stop_requested suppressed ex g frame e' smaller searched ran =
        subst (Finishes values config clock thread_ids) (ok-injective ran) (
          stopped-Finishes values config clock thread_ids ex g frame frames contexts done (
            find_blocked_receive_reschedule_child-stop config.program g (stop_requested ex)
              thread_ids searched))
    after_search (ready child) suppressed ex g frame e' smaller searched ran =
        subst (Finishes values config clock thread_ids) (ok-injective ran) (
          smaller ex child (pop_top_frame ex g frames contexts).contexts
            (omega (
              arith,
              find_blocked_receive_reschedule_child-count config.program g child (stop_requested ex)
                  thread_ids searched,
            ))
            λ ex' g'. done ex' g)

    enter_without_next-Finishes :
        (suppressed : Bool) (ex : SequentialExecutor V) (g : ExplorationGraph V)
        (frame : ExplorationFrame V) (e' : DepthFirstExplorer V)
        → SmallerFinish g frame.dpor_tree_depth
        → enter_without_next values config clock thread_ids suppressed ex g frame frames contexts
          ≡ ok e'
        → Finishes values config clock thread_ids e'
    unfolding enter_without_next
    enter_without_next-Finishes suppressed ex g frame e' smaller ran =
        let (found, e, f) =
          >>=-eq-ok
            (find_blocked_receive_reschedule_child config.program g (stop_requested ex) thread_ids)
            _ ran in
        after_search found suppressed ex g frame e' smaller e f

    module _ (depth : ℕ)
        (children : ChildrenFinish values config clock thread_ids (depth + 1)) where
      enter_linear_child-Finishes :
          (t : ℕ) (label : EventLabel V) (ex : SequentialExecutor V) (g : ExplorationGraph V)
          (frame : ExplorationFrame V) (e' : DepthFirstExplorer V)
          → frame.dpor_tree_depth ≡ depth
          → enter_linear_child values config clock thread_ids t label ex g frame frames contexts
            ≡ ok e'
          → Finishes values config clock thread_ids e'
      unfolding enter_linear_child pop_top_frame
      enter_linear_child-Finishes t label ex g frame e' at_depth ran =
          let (added, e, f) = >>=-eq-ok (add_event g t label) _ ran in
          let left : ExplorationFrame V = record frame {
            kind = exit_linear_child;
            checkpoint = checkpoint g;
          } in
          subst (Finishes values config clock thread_ids) (ok-injective f) (
            subst
              (λ (d : ℕ).
                Finishes values config clock thread_ids
                  (push_frame ex added.0 (left ∷ frames) contexts (d + 1) visit))
              (sym at_depth)
              (children ex added.0 visit (left ∷ frames) contexts λ ex' g'.
                linear_child-Finishes values config clock thread_ids frames contexts done depth
                  children ex' g' left refl))

      enter_error-Finishes :
          (t : ℕ) (label : EventLabel V) (ex : SequentialExecutor V) (g : ExplorationGraph V)
          (frame : ExplorationFrame V) (e' : DepthFirstExplorer V)
          → frame.dpor_tree_depth ≡ depth
          → enter_error values config clock thread_ids t label ex g frame frames contexts ≡ ok e'
          → Finishes values config clock thread_ids e'
      unfolding enter_error
      enter_error-Finishes t label ex g frame e' at_depth ran =
          let (added, e, f) = >>=-eq-ok (add_event g t label) _ ran in
          let (ex', p, f') =
            >>=-eq-ok (publish_terminal values config clock thread_ids ex added.0 failed) _ f in
          let (restored, r, f'') = >>=-eq-ok (rollback added.0 (checkpoint g)) _ f' in
          subst (Finishes values config clock thread_ids) (ok-injective f'') (done ex' restored)

      enter_choices-Finishes :
          (t : ℕ) (c : NondeterministicChoiceLabel V) (ex : SequentialExecutor V)
          (g : ExplorationGraph V) (frame : ExplorationFrame V) (e' : DepthFirstExplorer V)
          → frame.dpor_tree_depth ≡ depth
          → enter_choices values config clock thread_ids t c ex g frame frames contexts ≡ ok e'
          → Finishes values config clock thread_ids e'
      unfolding enter_choices
      enter_choices-Finishes t c ex g frame e' at_depth ran =
          subst (Finishes values config clock thread_ids) (ok-injective ran) (
            choices-Finishes values config clock thread_ids frames contexts done depth children
              (length (erase_duplicate_nd_choices values c.choices)) _ ex g _ refl refl at_depth
              (omega arith))

      enter_receive-Finishes :
          (t : ℕ) (r : ReceiveLabel V) (ex : SequentialExecutor V) (g : ExplorationGraph V)
          (frame : ExplorationFrame V) (e' : DepthFirstExplorer V)
          → frame.dpor_tree_depth ≡ depth
          → enter_receive values config clock thread_ids t r ex g frame frames contexts ≡ ok e'
          → Finishes values config clock thread_ids e'
      unfolding enter_receive
      enter_receive-Finishes t r ex g frame e' at_depth ran =
          subst (Finishes values config clock thread_ids) (ok-injective ran) (
            sources-Finishes values config clock thread_ids frames contexts done depth children
              (length (compatible_unread_send_ids g t r) - 0 + (if is_nonblocking r then 1 else 0))
              ex g _ refl at_depth (omega arith))

      enter_send-Finishes :
          (t : ℕ) (label : EventLabel V) (ex : SequentialExecutor V) (g : ExplorationGraph V)
          (frame : ExplorationFrame V) (e' : DepthFirstExplorer V)
          → frame.dpor_tree_depth ≡ depth
          → enter_send values config clock thread_ids t label ex g frame frames contexts ≡ ok e'
          → Finishes values config clock thread_ids e'
      unfolding enter_send
      enter_send-Finishes t label ex g frame e' at_depth ran =
          let (added, e, f) = >>=-eq-ok (add_event g t label) _ ran in
          let (receives, r, f') = >>=-eq-ok (receives_in_destination added.0 added.1) _ f in
          subst (Finishes values config clock thread_ids) (ok-injective f') (
            revisits-Finishes values config clock thread_ids frames contexts done depth children
              (length receives) ex added.0 _ refl at_depth (omega arith))

      enter_event-Finishes :
          (t : ℕ) (label : EventLabel V) (ex : SequentialExecutor V) (g : ExplorationGraph V)
          (frame : ExplorationFrame V) (e' : DepthFirstExplorer V)
          → frame.dpor_tree_depth ≡ depth
          → enter_event values config clock thread_ids t label ex g frame frames contexts ≡ ok e'
          → Finishes values config clock thread_ids e'
      unfolding enter_event
      enter_event-Finishes t (error m) ex g frame e' at_depth ran =
          enter_error-Finishes t (error m) ex g frame e' at_depth ran
      enter_event-Finishes t (receive r) ex g frame e' at_depth ran =
          enter_receive-Finishes t r ex g frame e' at_depth ran
      enter_event-Finishes t (send s) ex g frame e' at_depth ran =
          enter_send-Finishes t (send s) ex g frame e' at_depth ran
      enter_event-Finishes t block ex g frame e' at_depth ran =
          enter_linear_child-Finishes t block ex g frame e' at_depth ran
      enter_event-Finishes t (nondet c) ex g frame e' at_depth ran = elim (List-cases c.choices) [
        | inl empty ↦
            enter_linear_child-Finishes t (nondet c) ex g frame e' at_depth
              (rw (empty, enter_event) at ran)
        | inr (x, xs, some_choice) ↦
            enter_choices-Finishes t c ex g frame e' at_depth (rw (some_choice, enter_event) at ran)
      ]

    module _ (depth : ℕ)
        (children : depth < config.max_depth
          → ChildrenFinish values config clock thread_ids (depth + 1)) where
      enter_consistent-Finishes :
          (ex : SequentialExecutor V) (g : ExplorationGraph V) (frame : ExplorationFrame V)
          (e' : DepthFirstExplorer V)
          → frame.dpor_tree_depth ≡ depth
          → SmallerFinish g depth
          → enter_consistent values config clock thread_ids ex g frame frames contexts ≡ ok e'
          → Finishes values config clock thread_ids e'
      unfolding enter_consistent
      enter_consistent-Finishes ex g frame e' at_depth smaller ran =
          let (ex', e, f) = >>=-eq-ok (maybe_report_progress config clock ex) _ ran in
          elim (Bool-cases (stop_requested ex')) [
            | inl stops ↦
                subst (Finishes values config clock thread_ids) (ok-injective (rw stops at f)) (
                  stopped-Finishes values config clock thread_ids ex' g frame frames contexts done
                    stops)
            | inr runs_on ↦ elim (Bool-cases (leb config.max_depth frame.dpor_tree_depth)) [
              | inl deep ↦
                  publish_and_pop-Finishes depth_limit ex' g frame e' (rw (runs_on, deep) at f)
              | inr shallow ↦
                  let (found, c, f') =
                    >>=-eq-ok
                      (compute_next_event config.program g thread_ids config.max_thread_events) _
                      (rw (runs_on, shallow) at f) in
                  elim (Option-cases found.next) [
                    | inl at_end ↦
                        enter_without_next-Finishes found.suppressed_by_thread_event_limit ex' g
                          frame e' (subst (SmallerFinish g) (sym at_depth) smaller)
                          (rw at_end at f')
                    | inr (next, is_next) ↦
                        enter_event-Finishes depth (children (ground arith)) next.0 next.1 ex' g
                          frame e' at_depth (rw is_next at f')
                  ]
            ]
          ]

      handle_in_mode :
          (mode : ExplorationTaskMode) (ex : SequentialExecutor V) (g : ExplorationGraph V)
          (frame : ExplorationFrame V) (e' : DepthFirstExplorer V)
          → frame.dpor_tree_depth ≡ depth
          → SmallerFinish g depth
          → elim mode [
            | visit ↦ enter_consistent values config clock thread_ids ex g frame frames contexts
            | visit_if_consistent ↦
                if stop_requested ex
                then ok (pop_top_frame ex g frames contexts)
                else (check_exploring config.communication_model g >>= λ checked.
                    if is_consistent checked.1
                    then enter_consistent values config clock thread_ids ex checked.0
                        (record frame { mode = visit })
                        frames
                        contexts
                    else ok (pop_top_frame ex checked.0 frames contexts))
          ]
            ≡ ok e'
          → Finishes values config clock thread_ids e'
      handle_in_mode visit ex g frame e' at_depth smaller ran =
          enter_consistent-Finishes ex g frame e' at_depth smaller ran
      handle_in_mode visit_if_consistent ex g frame e' at_depth smaller ran =
          elim (Bool-cases (stop_requested ex)) [
            | inl stops ↦
                subst (Finishes values config clock thread_ids) (ok-injective (rw stops at ran))
                  (done ex g)
            | inr runs_on ↦
                let (checked, c, f) =
                  >>=-eq-ok (check_exploring config.communication_model g) _ (rw runs_on at ran) in
                let same = check_exploring-graph config.communication_model g checked c in
                elim (Bool-cases (is_consistent checked.1)) [
                  | inl consistent ↦
                      enter_consistent-Finishes ex checked.0 (record frame { mode = visit }) e'
                        at_depth
                        (λ ex' child contexts' fewer.
                          smaller ex' child contexts'
                            (omega (arith, ap (λ (x : ExecutionGraph V). length x.events) same)))
                        (rw consistent at f)
                  | inr inconsistent ↦
                      subst (Finishes values config clock thread_ids)
                        (ok-injective (rw inconsistent at f)) (done ex checked.0)
                ]
          ]

      handle_enter_frame-Finishes :
          (ex : SequentialExecutor V) (g : ExplorationGraph V) (frame : ExplorationFrame V)
          (e' : DepthFirstExplorer V)
          → frame.dpor_tree_depth ≡ depth
          → SmallerFinish g depth
          → handle_enter_frame values config clock thread_ids ex g frame frames contexts ≡ ok e'
          → Finishes values config clock thread_ids e'
      unfolding handle_enter_frame
      handle_enter_frame-Finishes ex g frame e' at_depth smaller ran =
          handle_in_mode frame.mode ex g frame e' at_depth smaller ran

  enter_round :
      (ex : SequentialExecutor V) (g : ExplorationGraph V) (frame : ExplorationFrame V)
      (frames : List (ExplorationFrame V)) (contexts : List (ExplorationContext V))
      (done : IsDone values config clock thread_ids frames contexts)
      → frame.kind ≡ enter
      → (frame.dpor_tree_depth < config.max_depth
          → ChildrenFinish values config clock thread_ids (frame.dpor_tree_depth + 1))
      → SmallerFinish frames contexts done g frame.dpor_tree_depth
      → Finishes values config clock thread_ids (explorer ex g (frame ∷ frames) contexts)
  unfolding handle_frame
  enter_round ex g frame frames contexts done kind children smaller =
      frame-Finishes values config clock thread_ids ex g frame frames contexts done λ e' ran.
        handle_enter_frame-Finishes frames contexts done frame.dpor_tree_depth children ex g frame
          e' refl smaller (rw (kind, handle_frame) at ran)

  -- A graph with at most `m` events at a depth where `n` levels are left, given the level below.
  sized-Finishes :
      (m : ℕ) (ex : SequentialExecutor V) (g : ExplorationGraph V) (frame : ExplorationFrame V)
      (frames : List (ExplorationFrame V)) (contexts : List (ExplorationContext V))
      (done : IsDone values config clock thread_ids frames contexts)
      → frame.kind ≡ enter
      → (frame.dpor_tree_depth < config.max_depth
          → ChildrenFinish values config clock thread_ids (frame.dpor_tree_depth + 1))
      → event_count g ≤ m
      → Finishes values config clock thread_ids (explorer ex g (frame ∷ frames) contexts)
  unfolding push_owned_context
  sized-Finishes zero ex g frame frames contexts done kind children small =
      enter_round ex g frame frames contexts done kind children
        λ ex' child contexts' fewer below. absurd (omega arith)
  sized-Finishes (suc m) ex g frame frames contexts done kind children small =
      enter_round ex g frame frames contexts done kind children λ ex' child contexts' fewer below.
        sized-Finishes m ex' child (enter_frame frame.dpor_tree_depth visit) [] contexts' below refl
          children (omega arith)

  pub enter-Finishes :
      (n : ℕ) (ex : SequentialExecutor V) (g : ExplorationGraph V) (frame : ExplorationFrame V)
      (frames : List (ExplorationFrame V)) (contexts : List (ExplorationContext V))
      → IsDone values config clock thread_ids frames contexts
      → frame.kind ≡ enter
      → config.max_depth ≤ frame.dpor_tree_depth + n
      → Finishes values config clock thread_ids (explorer ex g (frame ∷ frames) contexts)
  unfolding push_frame
  enter-Finishes zero ex g frame frames contexts done kind near =
      sized-Finishes (event_count g) ex g frame frames contexts done kind
        (λ shallow. absurd (omega arith)) (omega arith)
  enter-Finishes (suc n) ex g frame frames contexts done kind near =
      sized-Finishes (event_count g) ex g frame frames contexts done kind
        (λ shallow ex' g' mode frames' contexts' below.
          enter-Finishes n ex' g' (enter_frame (frame.dpor_tree_depth + 1) mode) frames' contexts'
            below refl (omega arith))
        (omega arith)

  -- From every graph and executor the exploration of a task returns or throws, given enough fuel.
  pub visit_impl_lem :
      (ex : SequentialExecutor V) (g : ExplorationGraph V) (depth : ℕ)
      → (fuel : ℕ) × (r : Result (SequentialExecutor V)) × ((n : ℕ)
          → fuel ≤ n
          → visit_impl values config clock thread_ids n ex g depth ≡ some r)
  unfolding visit_impl pop_top_frame
  visit_impl_lem ex g depth = run_loop-Finishes values config clock thread_ids _ (
      enter-Finishes config.max_depth ex g (enter_frame depth visit) [] [] (λ ex' g'. is_over refl)
        refl (omega arith))

module _ {ℓ} {V : Type ℓ} (values : Comparison V) (config : DporConfig V) (clock : ℕ → ℕ) where
  -- verify comes to an end for every program and every max_depth, as long as each single call of a
  -- callback does: enough fuel gives one result, which returns or throws, and more fuel gives the
  -- same.
  pub verify_lem :
      (fuel : ℕ) × (r : Result (SequentialExecutor V)) × ((n : ℕ)
        → fuel ≤ n
        → verify values config clock n ≡ some r)
  unfolding verify finish
  verify_lem =
      elim (Result-cases
        (validate_terminal_observer_config config >> sorted_thread_ids config.program)) [
          | inr (thrown, fails) ↦ (0, throw thrown, λ n h. rw (fails, verify) refl)
          | inl (thread_ids, checked) ↦
              let (fuel, r, enough) =
                visit_impl_lem values config clock thread_ids (executor_for config clock) empty 0 in
              (
                fuel,
                r >>= publish_final_progress config clock,
                λ n h. rw (checked, verify) (rw (enough n h) refl),
              )
        ]
