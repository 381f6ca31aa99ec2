-- ===== src/Algo/Explorer/Handlers.antt =====
-- include/dpor/algo/dpor.hpp, DepthFirstExplorer: the handlers of the kinds of frames. The sequential
-- executor splits no work off and refuses every task, so each alternative is explored here.
use cpp_dpor.Prelude.{ℕ, ◌+◌, Bool, false, List, [], ◌∷◌, some, none, leb, if◌then◌else◌, get_elem?}
use cpp_dpor.Errors.{Result, ok, throw, internal_error, ◌>>=◌}
use cpp_dpor.Event.{
  EventLabel, receive, send, nondet, block, error, NondeterministicChoiceLabel, ReceiveLabel,
  nondet_of, receive_of, is_send, is_nonblocking,
}
use cpp_dpor.Consistency.{is_consistent, check_exploring}
use cpp_dpor.Exploration.{ExplorationGraph, tests, set_reads_from, set_reads_from_bottom}
use cpp_dpor.Exploration.Insert.{add_event}
use cpp_dpor.Exploration.History.{checkpoint, rollback}
use cpp_dpor.Exploration.Queries.{has_blocked_thread, receives_in_destination}
use cpp_dpor.Algo.Results.{
  TerminalExecutionKind, full, blocked, failed, depth_limit, thread_event_limit,
}
use cpp_dpor.Algo.Config.{DporConfig, Comparison}
use cpp_dpor.Algo.Choices.{erase_duplicate_nd_choices}
use cpp_dpor.Algo.Next.{
  compute_next_event, compute_max_thread_event_depth, compatible_unread_send_ids,
}
use cpp_dpor.Algo.Children.{
  Reschedule, no_reschedule, ready, next_backward_revisit_child,
  find_blocked_receive_reschedule_child,
}
use cpp_dpor.Algo.Executor.{
  SequentialExecutor, stop_requested, maybe_report_progress, publish_terminal_execution,
}
use cpp_dpor.Algo.Explorer.{
  visit, visit_if_consistent, ExplorationFrame, exit_linear_child, resume_nd, resume_receive,
  resume_send_revisits, ExplorationContext, context_of, DepthFirstExplorer, pop_top_frame,
  push_frame, push_owned_context,
}

module _ {ℓ} {V : Type ℓ} (values : Comparison V) (config : DporConfig V) (clock : ℕ → ℕ)
    (thread_ids : List ℕ) where
  -- A handler's arguments: the executor, the graph, the top frame, the frames and contexts below it.
  abbrev pub Handler : Type ℓ
  Handler =
      SequentialExecutor V
      → ExplorationGraph V
      → ExplorationFrame V
      → List (ExplorationFrame V)
      → List (ExplorationContext V)
      → Result (DepthFirstExplorer V)

  -- The kind of an execution with no next event and no receive to ask again.
  unfoldable pub terminal_kind : ExplorationGraph V → Bool → TerminalExecutionKind
  terminal_kind g suppressed =
      if suppressed then thread_event_limit else (if has_blocked_thread g then blocked else full)

  unfoldable pub publish_terminal :
      SequentialExecutor V
      → ExplorationGraph V
      → TerminalExecutionKind
      → Result (SequentialExecutor V)
  publish_terminal ex g kind =
      publish_terminal_execution config ex g kind (compute_max_thread_event_depth g thread_ids)

  -- The execution is published and the frame popped.
  unfoldable pub publish_and_pop : TerminalExecutionKind → Handler
  unfolding publish_terminal
  publish_and_pop kind ex g frame frames contexts = do
    ex' ← publish_terminal ex g kind
    ok (pop_top_frame ex' g frames contexts)

  -- With no next event: a blocked receive that can be asked again, or a terminal execution.
  unfoldable pub enter_without_next : Bool → Handler
  unfolding publish_and_pop
  enter_without_next suppressed ex g frame frames contexts =
      find_blocked_receive_reschedule_child config.program g (stop_requested ex) thread_ids
      >>= λ reschedule. elim reschedule [
        | Reschedule.stop_requested ↦
            ok (record { executor = ex; contexts = context_of g (frame ∷ frames) ∷ contexts })
        | ready child ↦ ok (
            push_owned_context ex child frame.dpor_tree_depth visit
              (pop_top_frame ex g frames contexts).contexts)
        | no_reschedule ↦ publish_and_pop (terminal_kind g suppressed) ex g frame frames contexts
      ]

  -- The event is added and its one child entered, under a frame that undoes it.
  unfoldable pub enter_linear_child : ℕ → EventLabel V → Handler
  enter_linear_child t label ex g frame frames contexts = do
    added ← add_event g t label
    let left = record frame { kind = exit_linear_child; checkpoint = checkpoint g }
    ok (push_frame ex added.0 (left ∷ frames) contexts (frame.dpor_tree_depth + 1) visit)

  unfoldable pub enter_error : ℕ → EventLabel V → Handler
  unfolding publish_terminal
  enter_error t label ex g frame frames contexts = do
    added ← add_event g t label
    ex' ← publish_terminal ex added.0 failed
    restored ← rollback added.0 (checkpoint g)
    ok (pop_top_frame ex' restored frames contexts)

  -- The frame with which the alternatives of an event are gone through.
  unfoldable pub enter_choices : ℕ → NondeterministicChoiceLabel V → Handler
  enter_choices t c ex g frame frames contexts =
      let left : ExplorationFrame V = record frame {
        kind = resume_nd;
        checkpoint = checkpoint g;
        cursor = 0;
        event_id = none;
        thread_id = t;
        label = some (nondet (record c { choices = erase_duplicate_nd_choices values c.choices }));
        candidate_event_ids = [];
        flag = false;
      } in
      ok (record { executor = ex; contexts = context_of g (left ∷ frames) ∷ contexts })

  unfoldable pub enter_receive : ℕ → ReceiveLabel V → Handler
  enter_receive t r ex g frame frames contexts =
      let left : ExplorationFrame V = record frame {
        kind = resume_receive;
        checkpoint = checkpoint g;
        cursor = 0;
        event_id = none;
        thread_id = t;
        label = some (receive r);
        candidate_event_ids = compatible_unread_send_ids g t r;
        flag = is_nonblocking r;
      } in
      ok (record { executor = ex; contexts = context_of g (left ∷ frames) ∷ contexts })

  -- The flag is what `can_spawn` answers.
  unfoldable pub enter_send : ℕ → EventLabel V → Handler
  enter_send t label ex g frame frames contexts = do
    added ← add_event g t label
    receives ← receives_in_destination added.0 added.1
    let left = record frame {
      kind = resume_send_revisits;
      checkpoint = checkpoint g;
      cursor = 0;
      event_id = some added.1;
      label = none;
      candidate_event_ids = receives;
      flag = false;
    }
    ok (record { executor = ex; contexts = context_of added.0 (left ∷ frames) ∷ contexts })

  unfoldable pub enter_event : ℕ → EventLabel V → Handler
  unfolding enter_error enter_linear_child enter_choices enter_receive enter_send
  enter_event t (error m) = enter_error t (error m)
  enter_event t (nondet c) = elim c.choices [
    | [] ↦ enter_linear_child t (nondet c)
    | _ ↦ enter_choices t c
  ]
  enter_event t (receive r) = enter_receive t r
  enter_event t (send s) = enter_send t (send s)
  enter_event t block = enter_linear_child t block

  -- From the report of the progress on; the frame's mode is `visit`.
  unfoldable pub enter_consistent : Handler
  unfolding publish_and_pop enter_without_next enter_event
  enter_consistent ex g frame frames contexts = do
    ex' ← maybe_report_progress config clock ex
    if stop_requested ex'
        then ok (record { executor = ex'; contexts = context_of g (frame ∷ frames) ∷ contexts })
        else if leb config.max_depth frame.dpor_tree_depth
        then publish_and_pop depth_limit ex' g frame frames contexts
        else (compute_next_event config.program g thread_ids config.max_thread_events >>= λ found.
            elim found.next [
              | none ↦
                  enter_without_next found.suppressed_by_thread_event_limit ex' g frame frames
                    contexts
              | some next ↦ enter_event next.0 next.1 ex' g frame frames contexts
            ])

  unfoldable pub handle_enter_frame : Handler
  unfolding enter_consistent
  handle_enter_frame ex g frame frames contexts = elim frame.mode [
    | visit ↦ enter_consistent ex g frame frames contexts
    | visit_if_consistent ↦
        if stop_requested ex
        then ok (pop_top_frame ex g frames contexts)
        else (check_exploring config.communication_model g >>= λ checked.
            if is_consistent checked.1
            then enter_consistent ex checked.0 (record frame { mode = visit }) frames contexts
            else ok (pop_top_frame ex checked.0 frames contexts))
  ]

  -- The frame moves on to the next alternative, and the child of this one is entered.
  unfoldable pub next_choice : NondeterministicChoiceLabel V → Handler
  next_choice c ex g frame frames contexts = elim (get_elem? c.choices frame.cursor) [
    | none ↦ ok (pop_top_frame ex g frames contexts)
    | some value ↦ do
      added ← add_event g frame.thread_id (nondet (record c { value = value }))
      let left = record frame { cursor = frame.cursor + 1 }
      ok (push_frame ex added.0 (left ∷ frames) contexts (frame.dpor_tree_depth + 1) visit)
  ]

  unfoldable pub handle_resume_nd_frame : Handler
  unfolding next_choice
  handle_resume_nd_frame ex g frame frames contexts = do
    restored ← rollback g frame.checkpoint
    elim frame.label [
      | none ↦ throw internal_error
      | some label ↦ elim (nondet_of label) [
        | none ↦ throw internal_error
        | some c ↦ elim c.choices [
          | [] ↦ throw internal_error
          | _ ↦ next_choice c ex restored frame frames contexts
        ]
      ]
    ]

  -- The branch of a receive that may lack a message.
  unfoldable pub next_bottom : EventLabel V → Handler
  next_bottom label ex g frame frames contexts = do
    added ← add_event g frame.thread_id label
    bound ← set_reads_from_bottom added.0 added.1
    let left = record frame { flag = false }
    ok (
        push_frame ex bound (left ∷ frames) contexts (frame.dpor_tree_depth + 1)
          visit_if_consistent)

  -- The next source of the receive, or bottom once, or the end.
  unfoldable pub next_source : EventLabel V → Handler
  unfolding next_bottom
  next_source label ex g frame frames contexts =
      elim (get_elem? frame.candidate_event_ids frame.cursor) [
        | some send_id ↦ do
          added ← add_event g frame.thread_id label
          bound ← set_reads_from added.0 added.1 send_id
          let left = record frame { cursor = frame.cursor + 1 }
          ok (
              push_frame ex bound (left ∷ frames) contexts (frame.dpor_tree_depth + 1)
                visit_if_consistent)
        | none ↦
            if frame.flag
            then next_bottom label ex g frame frames contexts
            else ok (pop_top_frame ex g frames contexts)
      ]

  unfoldable pub handle_resume_receive_frame : Handler
  unfolding next_source
  handle_resume_receive_frame ex g frame frames contexts = do
    restored ← rollback g frame.checkpoint
    elim frame.label [
      | none ↦ throw internal_error
      | some label ↦ elim (receive_of label) [
        | none ↦ throw internal_error
        | some r ↦ next_source label ex restored frame frames contexts
      ]
    ]

  -- The next revisit of a send, in a context of its own, or the execution without one.
  unfoldable pub next_revisit : ℕ → Handler
  next_revisit send_id ex g frame frames contexts = do
    next ←
        next_backward_revisit_child values g send_id config.communication_model
          frame.candidate_event_ids frame.cursor
    let moved = record frame { cursor = next.0 }
    elim next.1 [
      | some child ↦ ok (
          push_owned_context ex child (frame.dpor_tree_depth + 1) visit_if_consistent
            (context_of g (moved ∷ frames) ∷ contexts))
      | none ↦ ok (
          push_frame ex g (record moved { kind = exit_linear_child } ∷ frames) contexts
            (frame.dpor_tree_depth + 1) visit)
    ]

  unfoldable pub handle_resume_send_revisits_frame : Handler
  unfolding next_revisit
  handle_resume_send_revisits_frame ex g frame frames contexts = elim frame.event_id [
    | none ↦ throw internal_error
    | some send_id ↦
        if tests is_send g send_id
        then next_revisit send_id ex g frame frames contexts
        else throw internal_error
  ]
