-- ===== src/Algo/Explorer.antt =====
-- include/dpor/algo/dpor.hpp, DepthFirstExplorer with the sequential executor, and verify. The vectors of
-- contexts and of frames are lists whose head is the back. A graph is one value, borrowed or owned. A
-- handler takes the top frame, the frames below it, the graph they share and the contexts below.
pub mod Handlers
pub mod Loop
pub mod Finishes
pub mod Alternatives
pub mod Terminates
pub mod Evolves
pub mod Effects
pub mod Rounds
pub mod Runs
use cpp_dpor.Prelude.{
  ℕ, zero, suc, ◌+◌, ◌-◌, ◌*◌, ◌^◌, ◌≤◌, ◌<◌, max, ◌≡◌, ◌≢◌, ◌↔◌, ◌⊎◌, inl, inr, refl, sym, ap, ◌∙◌,
  Bool, true, false, not, ◌&&◌, ◌||◌, List, [], ◌∷◌, ◌++◌, map, Option, some, none, arith, ltb, leb,
  ◌==◌, if◌then◌else◌, ltb→lt, lt→ltb, ltb-eq-false, ltb-false→le, leb→le, ==_iff, ==_refl, ==→eq,
  Bool-cases, Option-cases, bool_ext, length, get_elem?, get_or, set, replicate, length-append,
  length-set, length-replicate, get_or-replicate, get_or-of_le, get_elem?-of_le, get_elem?-of_lt,
  get_elem?-append_left, get_elem?-append_last, pop_back, back?, pop_back-append, back?-append,
  get_or-set, lt-length_of_get_elem?, get_elem?-concat, grow, get_or-grow, le-length-grow,
  length-grow, put, get_or-put, elem, count, elem-count, count-append, elem-append,
  elem_of_get_elem?, get_elem?_of_elem, All, All-append, All-map,
}
use cpp_dpor.Errors.{Result, ok, throw, throw_if, internal_error, ◌>>◌, ◌>>=◌}
use cpp_dpor.Event.{
  EventLabel, receive, send, nondet, block, error, NondeterministicChoiceLabel, ReceiveLabel,
  nondet_of, receive_of, is_send, is_nonblocking,
}
use cpp_dpor.Consistency.{is_consistent, check_exploring}
use cpp_dpor.Exploration.{
  ExplorationGraph, Checkpoint, empty, tests, set_reads_from, set_reads_from_bottom,
}
use cpp_dpor.Exploration.Insert.{add_event}
use cpp_dpor.Exploration.History.{checkpoint, rollback}
use cpp_dpor.Exploration.Queries.{has_blocked_thread, receives_in_destination}
use cpp_dpor.Algo.Results.{
  TerminalExecutionKind, full, blocked, failed, depth_limit, thread_event_limit,
}
use cpp_dpor.Algo.Config.{DporConfig, Comparison}
use cpp_dpor.Algo.Choices.{erase_duplicate_nd_choices}
use cpp_dpor.Algo.Next.{
  compute_next_event, compute_max_thread_event_depth, compatible_unread_send_ids, NextEventResult,
}
use cpp_dpor.Algo.Children.{
  Reschedule, no_reschedule, ready, next_backward_revisit_child,
  find_blocked_receive_reschedule_child,
}
use cpp_dpor.Algo.Children
use cpp_dpor.Algo.Executor.{
  SequentialExecutor, stop_requested, maybe_report_progress, publish_terminal_execution,
}

pub data ExplorationTaskMode : Type 0 where
  visit visit_if_consistent : ExplorationTaskMode

pub data ExplorationFrameKind : Type 0 where
  enter exit_linear_child resume_nd resume_receive resume_send_revisits : ExplorationFrameKind

pub record ExplorationFrame {ℓ} (V : Type ℓ) : Type ℓ where
  pub kind : ExplorationFrameKind
  pub dpor_tree_depth : ℕ
  pub mode : ExplorationTaskMode
  pub checkpoint : Checkpoint
  pub cursor : ℕ
  pub event_id : Option ℕ
  pub thread_id : ℕ
  pub label : Option (EventLabel V)
  pub candidate_event_ids : List ℕ
  pub flag : Bool

pub record ExplorationContext {ℓ} (V : Type ℓ) : Type ℓ where
  pub graph : ExplorationGraph V
  pub frames : List (ExplorationFrame V)

pub record DepthFirstExplorer {ℓ} (V : Type ℓ) : Type ℓ where
  pub executor : SequentialExecutor V
  pub contexts : List (ExplorationContext V)

module _ {ℓ} {V : Type ℓ} where
  -- `ExplorationFrame::enter`
  abbrev pub enter_frame : ℕ → ExplorationTaskMode → ExplorationFrame V
  enter_frame dpor_tree_depth mode = record {
    kind = enter;
    dpor_tree_depth = dpor_tree_depth;
    mode = mode;
    checkpoint = record {
      event_undo_size = 0;
      rf_undo_size = 0;
      known_acyclic = true;
      pending_fresh_receive_id = none;
    };
    cursor = 0;
    event_id = none;
    thread_id = 0;
    label = none;
    candidate_event_ids = [];
    flag = false;
  }

  abbrev pub context_of : ExplorationGraph V → List (ExplorationFrame V) → ExplorationContext V
  context_of g frames = record { graph = g; frames = frames }

  -- `pop_context_if_empty`, for the frames that are left over a graph.
  unfoldable pub pop_context_if_empty :
      ExplorationGraph V
      → List (ExplorationFrame V)
      → List (ExplorationContext V)
      → List (ExplorationContext V)
  pop_context_if_empty g [] contexts = contexts
  pop_context_if_empty g (frame ∷ frames) contexts = context_of g (frame ∷ frames) ∷ contexts

  unfoldable pub pop_top_frame :
      SequentialExecutor V
      → ExplorationGraph V
      → List (ExplorationFrame V)
      → List (ExplorationContext V)
      → DepthFirstExplorer V
  unfolding pop_context_if_empty
  pop_top_frame ex g frames contexts = record {
    executor = ex;
    contexts = pop_context_if_empty g frames contexts;
  }

  unfoldable pub rollback_and_pop_top_frame :
      SequentialExecutor V
      → ExplorationGraph V
      → ExplorationFrame V
      → List (ExplorationFrame V)
      → List (ExplorationContext V)
      → Result (DepthFirstExplorer V)
  unfolding pop_top_frame
  rollback_and_pop_top_frame ex g frame frames contexts = do
    g' ← rollback g frame.checkpoint
    ok (pop_top_frame ex g' frames contexts)

  -- The frames stay; a new one is pushed on them.
  unfoldable pub push_frame :
      SequentialExecutor V
      → ExplorationGraph V
      → List (ExplorationFrame V)
      → List (ExplorationContext V)
      → ℕ
      → ExplorationTaskMode
      → DepthFirstExplorer V
  push_frame ex g frames contexts depth mode = record {
    executor = ex;
    contexts = context_of g (enter_frame depth mode ∷ frames) ∷ contexts;
  }

  unfoldable pub push_owned_context :
      SequentialExecutor V
      → ExplorationGraph V
      → ℕ
      → ExplorationTaskMode
      → List (ExplorationContext V)
      → DepthFirstExplorer V
  push_owned_context ex g depth mode contexts = record {
    executor = ex;
    contexts = context_of g (enter_frame depth mode ∷ []) ∷ contexts;
  }

  unfoldable pub unwind_one_step : DepthFirstExplorer V → Result (DepthFirstExplorer V)
  unfolding pop_top_frame rollback_and_pop_top_frame
  unwind_one_step e = elim e.contexts [
    | [] ↦ ok e
    | context ∷ contexts ↦ elim context.frames [
      | [] ↦ ok (record e { contexts = contexts })
      | frame ∷ frames ↦ elim frame.kind [
        | enter ↦ ok (pop_top_frame e.executor context.graph frames contexts)
        | _ ↦ rollback_and_pop_top_frame e.executor context.graph frame frames contexts
      ]
    ]
  ]
