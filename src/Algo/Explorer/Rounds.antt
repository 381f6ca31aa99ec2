-- ===== src/Algo/Explorer/Rounds.antt =====
-- include/dpor/algo/dpor.hpp, DepthFirstExplorer: what a round of the loop does to the executor.
use cpp_dpor.Prelude.{
  ℕ, ◌≡◌, ◌⊎◌, inl, inr, refl, sym, ap, true, false, List, if◌then◌else◌, Bool-cases, Option-cases,
  List-cases, get_elem?,
}
use cpp_dpor.Errors.{ok, >>=-eq-ok, ok-injective, ◌>>=◌}
use cpp_dpor.Event.{EventLabel, NondeterministicChoiceLabel, nondet_of, receive_of, is_send}
use cpp_dpor.Consistency.{is_consistent, check_exploring}
use cpp_dpor.Exploration.{ExplorationGraph, tests, set_reads_from, set_reads_from_bottom}
use cpp_dpor.Exploration.Insert.{add_event}
use cpp_dpor.Exploration.History.{rollback}
use cpp_dpor.Algo.Config.{DporConfig, Comparison}
use cpp_dpor.Algo.Children.{next_backward_revisit_child}
use cpp_dpor.Algo.Executor.{SequentialExecutor, stop_requested}
use cpp_dpor.Algo.Explorer.{
  ExplorationTaskMode, visit, visit_if_consistent, ExplorationFrameKind, enter, exit_linear_child,
  resume_nd, resume_receive, resume_send_revisits, ExplorationFrame, ExplorationContext,
  DepthFirstExplorer, pop_top_frame, rollback_and_pop_top_frame, push_frame, push_owned_context,
  unwind_one_step,
}
use cpp_dpor.Algo.Explorer.Handlers.{
  enter_consistent, handle_enter_frame, next_choice, handle_resume_nd_frame, next_source,
  next_bottom, handle_resume_receive_frame, next_revisit, handle_resume_send_revisits_frame,
}
use cpp_dpor.Algo.Explorer.Loop.{handle_frame, step}
use cpp_dpor.Algo.Explorer.Evolves.{Evolves}
use cpp_dpor.Algo.Explorer.Effects.{returned, rollback_and_pop-Evolves, enter_consistent-Evolves}

module _ {ℓ} {V : Type ℓ} (values : Comparison V) (config : DporConfig V) (clock : ℕ → ℕ)
    (thread_ids : List ℕ) where
  module _ (frames : List (ExplorationFrame V)) (contexts : List (ExplorationContext V)) where
    handle_in_mode :
        (mode : ExplorationTaskMode) (ex : SequentialExecutor V) (g : ExplorationGraph V)
        (frame : ExplorationFrame V) (e' : DepthFirstExplorer V)
        → elim mode [
          | visit ↦ enter_consistent values config clock thread_ids ex g frame frames contexts
          | visit_if_consistent ↦
              if stop_requested ex
              then ok (pop_top_frame ex g frames contexts)
              else (check_exploring config.communication_model g >>= λ checked.
                  if is_consistent checked.1
                  then enter_consistent values config clock thread_ids ex checked.0
                      (record frame { mode = visit })
                      frames
                      contexts
                  else ok (pop_top_frame ex checked.0 frames contexts))
        ]
          ≡ ok e'
        → Evolves config thread_ids ex e'.executor
    unfolding pop_top_frame
    handle_in_mode visit ex g frame e' ran =
        enter_consistent-Evolves values config clock thread_ids frames contexts ex g frame e' ran
    handle_in_mode visit_if_consistent ex g frame e' ran = elim (Bool-cases (stop_requested ex)) [
      | inl stops ↦ returned values config clock thread_ids ex refl (rw stops at ran)
      | inr runs_on ↦
          let (checked, c, f) =
            >>=-eq-ok (check_exploring config.communication_model g) _ (rw runs_on at ran) in
          elim (Bool-cases (is_consistent checked.1)) [
            | inl consistent ↦
                enter_consistent-Evolves values config clock thread_ids frames contexts ex checked.0
                  (record frame { mode = visit }) e' (rw consistent at f)
            | inr inconsistent ↦
                returned values config clock thread_ids ex refl (rw inconsistent at f)
          ]
    ]

    next_choice-Evolves :
        (c : NondeterministicChoiceLabel V) (ex : SequentialExecutor V) (g : ExplorationGraph V)
        (frame : ExplorationFrame V) (e' : DepthFirstExplorer V)
        → next_choice values config clock thread_ids c ex g frame frames contexts ≡ ok e'
        → Evolves config thread_ids ex e'.executor
    unfolding next_choice pop_top_frame push_frame
    next_choice-Evolves c ex g frame e' ran =
        elim (Option-cases (get_elem? c.choices frame.cursor)) [
          | inl past ↦
              returned values config clock thread_ids ex refl (rw (past, next_choice) at ran)
          | inr (value, at) ↦
              let (added, e, f) =
                >>=-eq-ok (add_event g frame.thread_id _) _ (rw (at, next_choice) at ran) in
              returned values config clock thread_ids ex refl f
        ]

    handle_resume_nd_frame-Evolves :
        (ex : SequentialExecutor V) (g : ExplorationGraph V) (frame : ExplorationFrame V)
        (e' : DepthFirstExplorer V)
        → handle_resume_nd_frame values config clock thread_ids ex g frame frames contexts ≡ ok e'
        → Evolves config thread_ids ex e'.executor
    unfolding handle_resume_nd_frame
    handle_resume_nd_frame-Evolves ex g frame e' ran =
        let (restored, e, f) = >>=-eq-ok (rollback g frame.checkpoint) _ ran in
        elim (Option-cases frame.label) [
          | inl lost ↦ cc (rw lost at f)
          | inr (label, kept) ↦ elim (Option-cases (nondet_of label)) [
            | inl other ↦ cc (rw (kept, other) at f)
            | inr (c, is_choice) ↦ elim (List-cases c.choices) [
              | inl empty ↦ cc (rw (kept, is_choice, empty) at f)
              | inr (x, xs, some_choice) ↦
                  next_choice-Evolves c ex restored frame e'
                    (rw (kept, is_choice, some_choice) at f)
            ]
          ]
        ]

    next_source-Evolves :
        (label : EventLabel V) (ex : SequentialExecutor V) (g : ExplorationGraph V)
        (frame : ExplorationFrame V) (e' : DepthFirstExplorer V)
        → next_source values config clock thread_ids label ex g frame frames contexts ≡ ok e'
        → Evolves config thread_ids ex e'.executor
    unfolding next_source next_bottom pop_top_frame push_frame
    next_source-Evolves label ex g frame e' ran =
        elim (Option-cases (get_elem? frame.candidate_event_ids frame.cursor)) [
          | inl past ↦ elim (Bool-cases frame.flag) [
            | inl may_lack ↦
                let (added, e, f) =
                  >>=-eq-ok (add_event g frame.thread_id label) _
                    (rw (past, may_lack, next_source) at ran) in
                let (bound, b, last) = >>=-eq-ok (set_reads_from_bottom added.0 added.1) _ f in
                returned values config clock thread_ids ex refl last
            | inr done_with ↦
                returned values config clock thread_ids ex refl
                  (rw (past, done_with, next_source) at ran)
          ]
          | inr (send_id, at) ↦
              let (added, e, f) =
                >>=-eq-ok (add_event g frame.thread_id label) _ (rw (at, next_source) at ran) in
              let (bound, b, last) = >>=-eq-ok (set_reads_from added.0 added.1 send_id) _ f in
              returned values config clock thread_ids ex refl last
        ]

    handle_resume_receive_frame-Evolves :
        (ex : SequentialExecutor V) (g : ExplorationGraph V) (frame : ExplorationFrame V)
        (e' : DepthFirstExplorer V)
        → handle_resume_receive_frame values config clock thread_ids ex g frame frames contexts
          ≡ ok e'
        → Evolves config thread_ids ex e'.executor
    unfolding handle_resume_receive_frame
    handle_resume_receive_frame-Evolves ex g frame e' ran =
        let (restored, e, f) = >>=-eq-ok (rollback g frame.checkpoint) _ ran in
        elim (Option-cases frame.label) [
          | inl lost ↦ cc (rw lost at f)
          | inr (label, kept) ↦ elim (Option-cases (receive_of label)) [
            | inl other ↦ cc (rw (kept, other) at f)
            | inr (r, is_receive) ↦
                next_source-Evolves label ex restored frame e' (rw (kept, is_receive) at f)
          ]
        ]

    next_revisit-Evolves :
        (send_id : ℕ) (ex : SequentialExecutor V) (g : ExplorationGraph V)
        (frame : ExplorationFrame V) (e' : DepthFirstExplorer V)
        → next_revisit values config clock thread_ids send_id ex g frame frames contexts ≡ ok e'
        → Evolves config thread_ids ex e'.executor
    unfolding next_revisit push_owned_context push_frame
    next_revisit-Evolves send_id ex g frame e' ran =
        let (next, e, f) =
          >>=-eq-ok
            (next_backward_revisit_child values g send_id config.communication_model
              frame.candidate_event_ids frame.cursor)
            _ ran in
        elim (Option-cases next.1) [
          | inl at_end ↦ returned values config clock thread_ids ex refl (rw at_end at f)
          | inr (child, found) ↦ returned values config clock thread_ids ex refl (rw found at f)
        ]

    handle_resume_send_revisits_frame-Evolves :
        (ex : SequentialExecutor V) (g : ExplorationGraph V) (frame : ExplorationFrame V)
        (e' : DepthFirstExplorer V)
        → handle_resume_send_revisits_frame values config clock thread_ids ex g frame frames
            contexts
          ≡ ok e'
        → Evolves config thread_ids ex e'.executor
    unfolding handle_resume_send_revisits_frame
    handle_resume_send_revisits_frame-Evolves ex g frame e' ran =
        elim (Option-cases frame.event_id) [
          | inl lost ↦ cc (rw (lost, handle_resume_send_revisits_frame) at ran)
          | inr (send_id, kept) ↦ elim (Bool-cases (tests is_send g send_id)) [
            | inl sends ↦
                next_revisit-Evolves send_id ex g frame e'
                  (rw (kept, sends, handle_resume_send_revisits_frame) at ran)
            | inr other ↦ cc (rw (kept, other, handle_resume_send_revisits_frame) at ran)
          ]
        ]

    handle_kind :
        (kind : ExplorationFrameKind) (ex : SequentialExecutor V) (g : ExplorationGraph V)
        (frame : ExplorationFrame V) (e' : DepthFirstExplorer V)
        → frame.kind ≡ kind
        → handle_frame values config clock thread_ids ex g frame frames contexts ≡ ok e'
        → Evolves config thread_ids ex e'.executor
    unfolding handle_frame handle_enter_frame
    handle_kind enter ex g frame e' is_kind ran =
        handle_in_mode frame.mode ex g frame e' (rw (is_kind, handle_frame) at ran)
    handle_kind exit_linear_child ex g frame e' is_kind ran =
        rollback_and_pop-Evolves values config clock thread_ids frames contexts ex g frame e'
          (rw (is_kind, handle_frame) at ran)
    handle_kind resume_nd ex g frame e' is_kind ran =
        handle_resume_nd_frame-Evolves ex g frame e' (rw (is_kind, handle_frame) at ran)
    handle_kind resume_receive ex g frame e' is_kind ran =
        handle_resume_receive_frame-Evolves ex g frame e' (rw (is_kind, handle_frame) at ran)
    handle_kind resume_send_revisits ex g frame e' is_kind ran =
        handle_resume_send_revisits_frame-Evolves ex g frame e' (rw (is_kind, handle_frame) at ran)

    rolled_back :
        (ex : SequentialExecutor V) (g : ExplorationGraph V) (frame : ExplorationFrame V)
        (e' : DepthFirstExplorer V)
        → rollback_and_pop_top_frame ex g frame frames contexts ≡ ok e'
        → e'.executor ≡ ex
    unfolding pop_top_frame rollback_and_pop_top_frame
    rolled_back ex g frame e' ran =
        let (g', e, f) = >>=-eq-ok (rollback g frame.checkpoint) _ ran in
        ap (λ (x : DepthFirstExplorer V). x.executor) (sym (ok-injective f))

    unwound :
        (kind : ExplorationFrameKind) (ex : SequentialExecutor V) (g : ExplorationGraph V)
        (frame : ExplorationFrame V) (e' : DepthFirstExplorer V)
        → elim kind [
          | enter ↦ ok (pop_top_frame ex g frames contexts)
          | _ ↦ rollback_and_pop_top_frame ex g frame frames contexts
        ]
          ≡ ok e'
        → e'.executor ≡ ex
    unfolding pop_top_frame rollback_and_pop_top_frame
    unwound enter ex g frame e' ran =
        ap (λ (x : DepthFirstExplorer V). x.executor) (sym (ok-injective ran))
    unwound exit_linear_child ex g frame e' ran = rolled_back ex g frame e' ran
    unwound resume_nd ex g frame e' ran = rolled_back ex g frame e' ran
    unwound resume_receive ex g frame e' ran = rolled_back ex g frame e' ran
    unwound resume_send_revisits ex g frame e' ran = rolled_back ex g frame e' ran

  unwinding : (e e' : DepthFirstExplorer V) → unwind_one_step e ≡ ok e' → e'.executor ≡ e.executor
  unfolding unwind_one_step
  unwinding e e' ran = elim (List-cases e.contexts) [
    | inl over ↦
        ap (λ (x : DepthFirstExplorer V). x.executor)
          (sym (ok-injective (rw (over, unwind_one_step) at ran)))
    | inr (context, contexts, left) ↦ elim (List-cases context.frames) [
      | inl none_left ↦
          ap (λ (x : DepthFirstExplorer V). x.executor)
            (sym (ok-injective (rw (left, none_left, unwind_one_step) at ran)))
      | inr (frame, frames, top) ↦
          unwound frames contexts frame.kind e.executor context.graph frame e'
            (rw (left, top, unwind_one_step) at ran)
    ]
  ]

  -- A stopped executor stays as it is; another one evolves.
  pub step-Evolves :
      (e e' : DepthFirstExplorer V)
      → step values config clock thread_ids e ≡ ok e'
      → ((stop_requested e.executor ≡ true) × (e'.executor ≡ e.executor))
        ⊎ ((stop_requested e.executor ≡ false) × Evolves config thread_ids e.executor e'.executor)
  unfolding step
  step-Evolves e e' ran = elim (Bool-cases (stop_requested e.executor)) [
    | inl stops ↦ inl (stops, unwinding e e' (rw (stops, step) at ran))
    | inr runs_on ↦ inr (
      runs_on,
      elim (List-cases e.contexts) [
        | inl over ↦
            returned values config clock thread_ids e.executor refl
              (rw (runs_on, over, step) at ran)
        | inr (context, contexts, left) ↦ elim (List-cases context.frames) [
          | inl none_left ↦
              returned values config clock thread_ids e.executor refl
                (rw (runs_on, left, none_left, step) at ran)
          | inr (frame, frames, top) ↦
              handle_kind frames contexts frame.kind e.executor context.graph frame e' refl
                (rw (runs_on, left, top, step) at ran)
        ]
      ],
    )
  ]
