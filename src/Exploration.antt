-- ===== src/Exploration.antt =====
-- include/dpor/model/exploration_graph.hpp, ExplorationGraphT: an execution graph with the caches
-- that are kept beside it, the undo logs and the known-acyclic flag. Vectors that serve as stacks
-- (the logs) are lists whose head is the back of the vector. kNoSource is `none`.
pub mod Insert
pub mod History
pub mod Acyclic
pub mod Copies
pub mod Queries
pub mod Restrict
pub mod Cached
pub mod Porf
use cpp_dpor.Prelude.{
  ℕ, zero, suc, ◌+◌, ◌-◌, ◌*◌, ◌^◌, ◌≤◌, ◌<◌, max, ◌≡◌, ◌≢◌, ◌↔◌, ◌⊎◌, inl, inr, refl, sym, ap, ◌∙◌,
  Bool, true, false, not, ◌&&◌, ◌||◌, List, [], ◌∷◌, ◌++◌, map, Option, some, none, arith, ltb, leb,
  ◌==◌, if◌then◌else◌, ltb→lt, lt→ltb, ltb-eq-false, ltb-false→le, leb→le, ==_iff, ==_refl, ==→eq,
  Bool-cases, Option-cases, bool_ext, length, get_elem?, get_or, set, replicate, length-append,
  length-set, length-replicate, get_or-replicate, get_or-of_le, get_elem?-of_le, get_elem?-of_lt,
  get_elem?-append_left, get_elem?-append_last, pop_back, back?, pop_back-append, back?-append,
  get_or-set, lt-length_of_get_elem?, get_elem?-concat, grow, get_or-grow, le-length-grow,
  length-grow, put, get_or-put, elem, count, elem-count, count-append, elem-append,
  elem_of_get_elem?, get_elem?_of_elem, All, All-append, All-map,
}
use cpp_dpor.Errors.{Result, ok, throw, throw_if, precondition_error, internal_error, ◌>>◌, ◌>>=◌}
use cpp_dpor.Event.{Event, EventLabel, is_receive, is_send, is_block, is_error}
use cpp_dpor.Graph.ReadsFrom.{ReadsFromSource, from_send, bottom}
use cpp_dpor.Graph.ReadsFrom
use cpp_dpor.Graph.{ExecutionGraph, empty_graph, next_of}
use cpp_dpor.Graph

pub record ThreadState : Type 0 where
  pub event_count : ℕ
  pub last_event_id : Option ℕ

abbrev pub fresh_thread : ThreadState
fresh_thread = record { event_count = 0; last_event_id = none }

pub record EventUndo : Type 0 where
  pub event_id : ℕ
  pub thread : ℕ
  pub event_index : ℕ
  pub previous_thread_state : ThreadState
  pub previous_next_event_index : ℕ

pub record ReadsFromUndo : Type 0 where
  pub receive_id : ℕ
  pub previous_source : Option ReadsFromSource

pub record Checkpoint : Type 0 where
  pub event_undo_size : ℕ
  pub rf_undo_size : ℕ
  pub known_acyclic : Bool
  pub pending_fresh_receive_id : Option ℕ

pub record ExplorationGraph {ℓ} (V : Type ℓ) : Type ℓ where
  pub graph : ExecutionGraph V
  pub thread_state : List ThreadState
  pub thread_event_ids : List (List ℕ)
  pub receive_event_ids_by_thread : List (List ℕ)
  pub send_event_ids : List ℕ
  pub send_reader_counts : List ℕ
  pub unread_send_mask : List Bool
  pub known_acyclic : Bool
  pub pending_fresh_receive_id : Option ℕ
  pub event_undo_log : List EventUndo
  pub rf_undo_log : List ReadsFromUndo

module _ {ℓ} {V : Type ℓ} where
  abbrev pub empty : ExplorationGraph V
  empty = record {
    graph = empty_graph;
    thread_state = [];
    thread_event_ids = [];
    receive_event_ids_by_thread = [];
    send_event_ids = [];
    send_reader_counts = [];
    unread_send_mask = [];
    known_acyclic = true;
    pending_fresh_receive_id = none;
    event_undo_log = [];
    rf_undo_log = [];
  }

  abbrev pub event_count : ExplorationGraph V → ℕ
  event_count g = length g.graph.events

  abbrev pub event_at : ExplorationGraph V → ℕ → Option (Event V)
  event_at g id = get_elem? g.graph.events id

  -- A test of the event with an id; an id of no event fails it.
  abbrev pub tests : (Event V → Bool) → ExplorationGraph V → ℕ → Bool
  tests p g id = elim (event_at g id) [ none ↦ false | some e ↦ p e ]

  unfoldable pub current_reads_from_source : ExplorationGraph V → ℕ → Option ReadsFromSource
  current_reads_from_source g id = ReadsFrom.find g.graph.reads_from id

  unfoldable pub invalidate_known_acyclicity : ExplorationGraph V → ExplorationGraph V
  invalidate_known_acyclicity g = record g {
    known_acyclic = false;
    pending_fresh_receive_id = none;
  }

  unfoldable pub mark_known_acyclic : ExplorationGraph V → ExplorationGraph V
  mark_known_acyclic g = record g { known_acyclic = true; pending_fresh_receive_id = none }

  pub clear_worker_local_history : ExplorationGraph V → ExplorationGraph V
  clear_worker_local_history g = record g { event_undo_log = []; rf_undo_log = [] }

  -- The event is the one with the given id.
  unfoldable pub update_acyclicity_after_add_event : ExplorationGraph V → ℕ → ExplorationGraph V
  update_acyclicity_after_add_event g id = record g {
    pending_fresh_receive_id = if g.known_acyclic && tests is_receive g id then some id else none;
  }

  -- The condition of the fast path: the receive is the one that was added last.
  unfoldable pub is_pending : ExplorationGraph V → ℕ → Bool
  is_pending g id = elim g.pending_fresh_receive_id [ none ↦ false | some pending ↦ pending == id ]

  unfoldable pub update_acyclicity_after_rf_assignment :
      ExplorationGraph V → ℕ → ReadsFromSource → ExplorationGraph V
  unfolding is_pending invalidate_known_acyclicity
  update_acyclicity_after_rf_assignment g id source =
      if g.known_acyclic && (is_pending g id && tests is_receive g id)
      then elim source [
        | bottom ↦ record g { pending_fresh_receive_id = none }
        | from_send source_id ↦
            if tests is_send g source_id
            then record g { pending_fresh_receive_id = none }
            else invalidate_known_acyclicity g
      ]
      else invalidate_known_acyclicity g

  -- The delta is -1 for a source that is given up.
  unfoldable pub lower : ExplorationGraph V → ℕ → Result (ExplorationGraph V)
  lower g send_id = do
    let readers = get_or g.send_reader_counts send_id 0
    throw_if (ltb readers 1) internal_error
    ok (record g {
      send_reader_counts = set g.send_reader_counts send_id (readers - 1);
      unread_send_mask = set g.unread_send_mask send_id (readers - 1 == 0);
    })

  -- The delta is 1 for a source that is taken.
  unfoldable pub raise : ExplorationGraph V → ℕ → ExplorationGraph V
  raise g send_id =
      let readers = get_or g.send_reader_counts send_id 0 in
      record g {
        send_reader_counts = set g.send_reader_counts send_id (readers + 1);
        unread_send_mask = set g.unread_send_mask send_id (readers + 1 == 0);
      }

  -- `adjust_send_reader_count` does nothing but for a send that the caches cover.
  unfoldable pub counts_readers : ExplorationGraph V → ℕ → Bool
  counts_readers g send_id =
      tests is_send g send_id
      && (ltb send_id (length g.send_reader_counts) && ltb send_id (length g.unread_send_mask))

  unfoldable pub drop_source :
      ExplorationGraph V → Option ReadsFromSource → Result (ExplorationGraph V)
  unfolding lower counts_readers
  drop_source g none = ok g
  drop_source g (some bottom) = ok g
  drop_source g (some (from_send send_id)) =
      if counts_readers g send_id then lower g send_id else ok g

  unfoldable pub take_source : ExplorationGraph V → Option ReadsFromSource → ExplorationGraph V
  unfolding raise counts_readers
  take_source g none = g
  take_source g (some bottom) = g
  take_source g (some (from_send send_id)) = if counts_readers g send_id then raise g send_id else g

  unfoldable pub update_send_reader_state :
      ExplorationGraph V
      → Option ReadsFromSource
      → Option ReadsFromSource
      → Result (ExplorationGraph V)
  unfolding drop_source take_source
  update_send_reader_state g previous next = do
    g' ← drop_source g previous
    ok (take_source g' next)

  unfoldable pub set_reads_from_source :
      ExplorationGraph V → ℕ → ReadsFromSource → Result (ExplorationGraph V)
  unfolding current_reads_from_source update_send_reader_state update_acyclicity_after_rf_assignment
  set_reads_from_source g id source = do
    let previous = current_reads_from_source g id
    g' ←
        update_send_reader_state
          (record g {
            graph = Graph.set_reads_from_source g.graph id source;
            rf_undo_log = record { receive_id = id; previous_source = previous } ∷ g.rf_undo_log;
          })
          previous (some source)
    ok (update_acyclicity_after_rf_assignment g' id source)

  unfoldable pub set_reads_from : ExplorationGraph V → ℕ → ℕ → Result (ExplorationGraph V)
  unfolding set_reads_from_source
  set_reads_from g id send_id = set_reads_from_source g id (from_send send_id)

  pub set_reads_from_bottom : ExplorationGraph V → ℕ → Result (ExplorationGraph V)
  unfolding set_reads_from_source
  set_reads_from_bottom g id = set_reads_from_source g id bottom
