-- ===== src/Algo/Explorer/Alternatives.antt =====
-- include/dpor/algo/dpor.hpp, DepthFirstExplorer: the frames that go through the alternatives of an event.
use cpp_dpor.Prelude.{
  ℕ, zero, suc, ◌+◌, ◌-◌, ◌≤◌, ◌<◌, ◌≡◌, inl, inr, refl, sym, ◌∙◌, false, List, [], ◌∷◌, some,
  arith, if◌then◌else◌, Bool-cases, Option-cases, List-cases, length, get_elem?,
  lt-length_of_get_elem?,
}
use mathlib.Core.Path.{subst}
use cpp_dpor.Errors.{ok, >>=-eq-ok, ok-injective}
use cpp_dpor.Event.{EventLabel, NondeterministicChoiceLabel, nondet, receive_of, is_send}
use cpp_dpor.Exploration.{ExplorationGraph, tests, set_reads_from, set_reads_from_bottom}
use cpp_dpor.Exploration.Insert.{add_event}
use cpp_dpor.Exploration.History.{rollback}
use cpp_dpor.Algo.Config.{DporConfig, Comparison}
use cpp_dpor.Algo.Children.{next_backward_revisit_child}
use cpp_dpor.Algo.Children.Cursor.{next_backward_revisit_child-cursor}
use cpp_dpor.Algo.Executor.{SequentialExecutor}
use cpp_dpor.Algo.Explorer.{
  ExplorationTaskMode, visit, visit_if_consistent, exit_linear_child, resume_nd, resume_receive,
  resume_send_revisits, ExplorationFrame, ExplorationContext, context_of, DepthFirstExplorer,
  pop_top_frame, push_frame, push_owned_context,
}
use cpp_dpor.Algo.Explorer.Handlers.{
  handle_resume_nd_frame, next_choice, handle_resume_receive_frame, next_source, next_bottom,
  handle_resume_send_revisits_frame, next_revisit,
}
use cpp_dpor.Algo.Explorer.Loop.{handle_frame}
use cpp_dpor.Algo.Explorer.Finishes.{
  Finishes, IsDone, explorer, frame-Finishes, rollback_and_pop-Finishes,
}

module _ {ℓ} {V : Type ℓ} (values : Comparison V) (config : DporConfig V) (clock : ℕ → ℕ)
    (thread_ids : List ℕ) where
  -- Explorers that enter a child at a depth finish.
  abbrev pub ChildrenFinish : ℕ → Type ℓ
  ChildrenFinish depth =
      (ex : SequentialExecutor V) (g : ExplorationGraph V) (mode : ExplorationTaskMode)
      (frames : List (ExplorationFrame V)) (contexts : List (ExplorationContext V))
      → IsDone values config clock thread_ids frames contexts
      → Finishes values config clock thread_ids (push_frame ex g frames contexts depth mode)

  module _ (frames : List (ExplorationFrame V)) (contexts : List (ExplorationContext V))
      (done : IsDone values config clock thread_ids frames contexts) (depth : ℕ)
      (children : ChildrenFinish (depth + 1)) where
    pub linear_child-Finishes :
        (ex : SequentialExecutor V) (g : ExplorationGraph V) (frame : ExplorationFrame V)
        → frame.kind ≡ exit_linear_child
        → Finishes values config clock thread_ids (explorer ex g (frame ∷ frames) contexts)
    unfolding handle_frame
    linear_child-Finishes ex g frame kind =
        frame-Finishes values config clock thread_ids ex g frame frames contexts done λ e' ran.
          rollback_and_pop-Finishes values config clock thread_ids ex g frame frames contexts e'
            done (rw (kind, handle_frame) at ran)

    -- A child under a frame that finishes.
    child_of :
        (ex : SequentialExecutor V) (mode : ExplorationTaskMode) {e' : DepthFirstExplorer V} {d : ℕ}
        (left : ExplorationFrame V) (g : ExplorationGraph V)
        → d ≡ depth
        → ok (push_frame ex g (left ∷ frames) contexts (d + 1) mode) ≡ ok e'
        → ((ex' : SequentialExecutor V) (g' : ExplorationGraph V)
            → Finishes values config clock thread_ids (explorer ex' g' (left ∷ frames) contexts))
        → Finishes values config clock thread_ids e'
    unfolding pop_top_frame
    child_of ex mode {e'} {d} left g at_depth ran again =
        subst (Finishes values config clock thread_ids) (ok-injective ran) (
          subst
            (λ (k : ℕ).
              Finishes values config clock thread_ids
                (push_frame ex g (left ∷ frames) contexts (k + 1) mode))
            (sym at_depth) (children ex g mode (left ∷ frames) contexts again))

    next_choice-Finishes :
        (c : NondeterministicChoiceLabel V) (ex : SequentialExecutor V) (g : ExplorationGraph V)
        (frame : ExplorationFrame V) (e' : DepthFirstExplorer V)
        → frame.dpor_tree_depth ≡ depth
        → (frame.cursor < length c.choices
            → (ex' : SequentialExecutor V) (g' : ExplorationGraph V)
            → Finishes values config clock thread_ids
                (explorer ex' g' (record frame { cursor = frame.cursor + 1 } ∷ frames) contexts))
        → next_choice values config clock thread_ids c ex g frame frames contexts ≡ ok e'
        → Finishes values config clock thread_ids e'
    unfolding next_choice pop_top_frame
    next_choice-Finishes c ex g frame e' at_depth again ran =
        elim (Option-cases (get_elem? c.choices frame.cursor)) [
          | inl past ↦
              subst (Finishes values config clock thread_ids)
                (ok-injective (rw (past, next_choice) at ran)) (done ex g)
          | inr (value, at) ↦
              let (added, e, f) =
                >>=-eq-ok (add_event g frame.thread_id _) _ (rw (at, next_choice) at ran) in
              child_of ex visit (record frame { cursor = frame.cursor + 1 }) added.0 at_depth f
                (again (lt-length_of_get_elem? c.choices frame.cursor at))
        ]

    -- One round of the frame, given what follows a child.
    choices_round :
        (c : NondeterministicChoiceLabel V) (ex : SequentialExecutor V) (g : ExplorationGraph V)
        (frame : ExplorationFrame V)
        → frame.kind ≡ resume_nd
        → frame.label ≡ some (nondet c)
        → frame.dpor_tree_depth ≡ depth
        → (frame.cursor < length c.choices
            → (ex' : SequentialExecutor V) (g' : ExplorationGraph V)
            → Finishes values config clock thread_ids
                (explorer ex' g' (record frame { cursor = frame.cursor + 1 } ∷ frames) contexts))
        → Finishes values config clock thread_ids (explorer ex g (frame ∷ frames) contexts)
    unfolding handle_frame handle_resume_nd_frame
    choices_round c ex g frame kind label at_depth again =
        frame-Finishes values config clock thread_ids ex g frame frames contexts done λ e' ran.
          let (restored, e, f) =
            >>=-eq-ok (rollback g frame.checkpoint) _ (rw (kind, handle_frame) at ran) in
          elim (List-cases c.choices) [
            | inl empty ↦ cc (rw (label, empty) at f)
            | inr (x, xs, some_choice) ↦
                next_choice-Finishes c ex restored frame e' at_depth again
                  (rw (label, some_choice) at f)
          ]

    pub choices-Finishes :
        (n : ℕ) (c : NondeterministicChoiceLabel V) (ex : SequentialExecutor V)
        (g : ExplorationGraph V) (frame : ExplorationFrame V)
        → frame.kind ≡ resume_nd
        → frame.label ≡ some (nondet c)
        → frame.dpor_tree_depth ≡ depth
        → length c.choices ≤ frame.cursor + n
        → Finishes values config clock thread_ids (explorer ex g (frame ∷ frames) contexts)
    choices-Finishes zero c ex g frame kind label at_depth left =
        choices_round c ex g frame kind label at_depth λ below ex' g'. absurd (omega arith)
    choices-Finishes (suc n) c ex g frame kind label at_depth left =
        choices_round c ex g frame kind label at_depth λ below ex' g'.
          choices-Finishes n c ex' g' (record frame { cursor = frame.cursor + 1 }) kind label
            at_depth (omega arith)

    -- The alternatives that a receive has left.
    abbrev pub sources_left : ExplorationFrame V → ℕ
    sources_left frame =
        length frame.candidate_event_ids - frame.cursor + (if frame.flag then 1 else 0)

    next_source-Finishes :
        (label : EventLabel V) (ex : SequentialExecutor V) (g : ExplorationGraph V)
        (frame : ExplorationFrame V) (e' : DepthFirstExplorer V)
        → frame.dpor_tree_depth ≡ depth
        → ((left : ExplorationFrame V)
            → left.kind ≡ frame.kind
            → left.dpor_tree_depth ≡ frame.dpor_tree_depth
            → sources_left left < sources_left frame
            → (ex' : SequentialExecutor V) (g' : ExplorationGraph V)
            → Finishes values config clock thread_ids (explorer ex' g' (left ∷ frames) contexts))
        → next_source values config clock thread_ids label ex g frame frames contexts ≡ ok e'
        → Finishes values config clock thread_ids e'
    unfolding next_source next_bottom pop_top_frame
    next_source-Finishes label ex g frame e' at_depth again ran =
        elim (Option-cases (get_elem? frame.candidate_event_ids frame.cursor)) [
          | inl past ↦ elim (Bool-cases frame.flag) [
            | inl may_lack ↦
                let (added, e, f) =
                  >>=-eq-ok (add_event g frame.thread_id label) _
                    (rw (past, may_lack, next_source) at ran) in
                let (bound, b, last) = >>=-eq-ok (set_reads_from_bottom added.0 added.1) _ f in
                let left : ExplorationFrame V = record frame { flag = false } in
                child_of ex visit_if_consistent left bound at_depth last
                  (again left refl refl (ground arith))
            | inr done_with ↦
                subst (Finishes values config clock thread_ids)
                  (ok-injective (rw (past, done_with, next_source) at ran)) (done ex g)
          ]
          | inr (send_id, at) ↦
              let (added, e, f) =
                >>=-eq-ok (add_event g frame.thread_id label) _ (rw (at, next_source) at ran) in
              let (bound, b, last) = >>=-eq-ok (set_reads_from added.0 added.1 send_id) _ f in
              let left : ExplorationFrame V = record frame { cursor = frame.cursor + 1 } in
              let below = lt-length_of_get_elem? frame.candidate_event_ids frame.cursor at in
              child_of ex visit_if_consistent left bound at_depth last
                (again left refl refl (omega arith))
        ]

    sources_round :
        (ex : SequentialExecutor V) (g : ExplorationGraph V) (frame : ExplorationFrame V)
        → frame.kind ≡ resume_receive
        → frame.dpor_tree_depth ≡ depth
        → ((left : ExplorationFrame V)
            → left.kind ≡ frame.kind
            → left.dpor_tree_depth ≡ frame.dpor_tree_depth
            → sources_left left < sources_left frame
            → (ex' : SequentialExecutor V) (g' : ExplorationGraph V)
            → Finishes values config clock thread_ids (explorer ex' g' (left ∷ frames) contexts))
        → Finishes values config clock thread_ids (explorer ex g (frame ∷ frames) contexts)
    unfolding handle_frame handle_resume_receive_frame
    sources_round ex g frame kind at_depth again =
        frame-Finishes values config clock thread_ids ex g frame frames contexts done λ e' ran.
          let (restored, e, f) =
            >>=-eq-ok (rollback g frame.checkpoint) _ (rw (kind, handle_frame) at ran) in
          elim (Option-cases frame.label) [
            | inl lost ↦ cc (rw lost at f)
            | inr (label, kept) ↦ elim (Option-cases (receive_of label)) [
              | inl other ↦ cc (rw (kept, other) at f)
              | inr (r, is_receive) ↦
                  next_source-Finishes label ex restored frame e' at_depth again
                    (rw (kept, is_receive) at f)
            ]
          ]

    pub sources-Finishes :
        (n : ℕ) (ex : SequentialExecutor V) (g : ExplorationGraph V) (frame : ExplorationFrame V)
        → frame.kind ≡ resume_receive
        → frame.dpor_tree_depth ≡ depth
        → sources_left frame ≤ n
        → Finishes values config clock thread_ids (explorer ex g (frame ∷ frames) contexts)
    sources-Finishes zero ex g frame kind at_depth left =
        sources_round ex g frame kind at_depth λ next k d fewer. absurd (omega arith)
    sources-Finishes (suc n) ex g frame kind at_depth left =
        sources_round ex g frame kind at_depth λ next k d fewer ex' g'.
          sources-Finishes n ex' g' next (k ∙ kind) (d ∙ at_depth) (omega arith)

    -- A revisit moves the cursor on, within the receives.
    next_revisit-Finishes :
        (send_id : ℕ) (ex : SequentialExecutor V) (g : ExplorationGraph V)
        (frame : ExplorationFrame V) (e' : DepthFirstExplorer V)
        → frame.dpor_tree_depth ≡ depth
        → ((cursor : ℕ)
            → frame.cursor < cursor
            → cursor ≤ length frame.candidate_event_ids
            → (ex' : SequentialExecutor V) (g' : ExplorationGraph V)
            → Finishes values config clock thread_ids
                (explorer ex' g' (record frame { cursor = cursor } ∷ frames) contexts))
        → next_revisit values config clock thread_ids send_id ex g frame frames contexts ≡ ok e'
        → Finishes values config clock thread_ids e'
    unfolding next_revisit push_owned_context push_frame pop_top_frame
    next_revisit-Finishes send_id ex g frame e' at_depth again ran =
        let (next, e, f) =
          >>=-eq-ok
            (next_backward_revisit_child values g send_id config.communication_model
              frame.candidate_event_ids frame.cursor)
            _ ran in
        let moved : ExplorationFrame V = record frame { cursor = next.0 } in
        elim (Option-cases next.1) [
          | inl at_end ↦
              let left : ExplorationFrame V = record moved { kind = exit_linear_child } in
              child_of ex visit left g at_depth (rw at_end at f)
                λ ex' g'. linear_child-Finishes ex' g' left refl
          | inr (child, found) ↦
              let (on, within) =
                next_backward_revisit_child-cursor values g send_id config.communication_model
                  frame.candidate_event_ids frame.cursor next child e found in
              subst (Finishes values config clock thread_ids) (ok-injective (rw found at f)) (
                subst
                  (λ (d : ℕ). Finishes values config clock thread_ids (
                    push_frame ex child [] (context_of g (moved ∷ frames) ∷ contexts) (d + 1)
                      visit_if_consistent))
                  (sym at_depth)
                  (children ex child visit_if_consistent []
                    (context_of g (moved ∷ frames) ∷ contexts)
                    λ ex' g'. again next.0 on within ex' g))
        ]

    revisits_round :
        (ex : SequentialExecutor V) (g : ExplorationGraph V) (frame : ExplorationFrame V)
        → frame.kind ≡ resume_send_revisits
        → frame.dpor_tree_depth ≡ depth
        → ((cursor : ℕ)
            → frame.cursor < cursor
            → cursor ≤ length frame.candidate_event_ids
            → (ex' : SequentialExecutor V) (g' : ExplorationGraph V)
            → Finishes values config clock thread_ids
                (explorer ex' g' (record frame { cursor = cursor } ∷ frames) contexts))
        → Finishes values config clock thread_ids (explorer ex g (frame ∷ frames) contexts)
    unfolding handle_frame handle_resume_send_revisits_frame
    revisits_round ex g frame kind at_depth again =
        frame-Finishes values config clock thread_ids ex g frame frames contexts done λ e' ran.
          elim (Option-cases frame.event_id) [
            | inl lost ↦
                cc (rw (kind, lost, handle_frame, handle_resume_send_revisits_frame) at ran)
            | inr (send_id, kept) ↦ elim (Bool-cases (tests is_send g send_id)) [
              | inl sends ↦
                  next_revisit-Finishes send_id ex g frame e' at_depth again
                    (rw (kind, kept, sends, handle_frame, handle_resume_send_revisits_frame) at ran)
              | inr other ↦
                  cc
                    (rw (kind, kept, other, handle_frame, handle_resume_send_revisits_frame) at ran)
            ]
          ]

    pub revisits-Finishes :
        (n : ℕ) (ex : SequentialExecutor V) (g : ExplorationGraph V) (frame : ExplorationFrame V)
        → frame.kind ≡ resume_send_revisits
        → frame.dpor_tree_depth ≡ depth
        → length frame.candidate_event_ids ≤ frame.cursor + n
        → Finishes values config clock thread_ids (explorer ex g (frame ∷ frames) contexts)
    revisits-Finishes zero ex g frame kind at_depth left =
        revisits_round ex g frame kind at_depth λ cursor on within. absurd (omega arith)
    revisits-Finishes (suc n) ex g frame kind at_depth left =
        revisits_round ex g frame kind at_depth λ cursor on within ex' g'.
          revisits-Finishes n ex' g' (record frame { cursor = cursor }) kind at_depth (omega arith)
