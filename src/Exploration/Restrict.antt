-- ===== src/Exploration/Restrict.antt =====
-- include/dpor/model/exploration_graph.hpp, ExplorationGraphT::restrict_from_keep_mask: the graph of the
-- events that a mask keeps, under new ids.
pub mod Size
use cpp_dpor.Prelude.{
  ℕ, zero, suc, ◌+◌, ◌-◌, ◌*◌, ◌^◌, ◌≤◌, ◌<◌, max, ◌≡◌, ◌≢◌, ◌↔◌, ◌⊎◌, inl, inr, refl, sym, ap, ◌∙◌,
  Bool, true, false, not, ◌&&◌, ◌||◌, List, [], ◌∷◌, ◌++◌, map, Option, some, none, arith, ltb, leb,
  ◌==◌, if◌then◌else◌, ltb→lt, lt→ltb, ltb-eq-false, ltb-false→le, leb→le, ==_iff, ==_refl, ==→eq,
  Bool-cases, Option-cases, List-cases, bool_ext, length, get_elem?, get_or, set, replicate,
  length-append, length-set, length-replicate, get_or-replicate, get_or-of_le, get_elem?-of_le,
  get_elem?-of_lt, get_elem?-append_left, get_elem?-append_last, pop_back, back?, pop_back-append,
  back?-append, get_or-set, lt-length_of_get_elem?, get_elem?-concat, grow, get_or-grow,
  le-length-grow, length-grow, put, get_or-put, elem, count, elem-count, count-append, elem-append,
  elem_of_get_elem?, get_elem?_of_elem, All, All-append, All-map,
}
use cpp_dpor.Errors.{Result, Result-cases, ok, throw, throw_if, internal_error, ◌>>◌, ◌>>=◌}
use cpp_dpor.Event.{EventLabel, is_receive, is_send}
use cpp_dpor.Graph.{ExecutionGraph, event}
use cpp_dpor.Graph
use cpp_dpor.Graph.ReadsFrom.{ReadsFromSource, from_send, bottom, to_list}
use cpp_dpor.Exploration.{
  ExplorationGraph, fresh_thread, empty, event_count, tests, set_reads_from, set_reads_from_bottom,
  update_acyclicity_after_add_event, mark_known_acyclic, invalidate_known_acyclicity,
  clear_worker_local_history,
}
use cpp_dpor.Exploration.Insert.{add_event, enter_caches, entered}

-- The ids that the mask keeps, from `id` on.
unfoldable pub kept_from : ℕ → List Bool → List ℕ
kept_from id [] = []
kept_from id (keep ∷ mask) = if keep then id ∷ kept_from (suc id) mask else kept_from (suc id) mask

-- `id_map`: the new ids from `new_id` on, `none` for kNoSource.
pub id_map_from : ℕ → List Bool → List (Option ℕ)
id_map_from new_id [] = []
id_map_from new_id (keep ∷ mask) =
    if keep then some new_id ∷ id_map_from (suc new_id) mask else none ∷ id_map_from new_id mask

-- An id outside the map would be read out of bounds: `internal_error`, which the code does not throw.
abbrev pub look_up : List (Option ℕ) → ℕ → Result (Option ℕ)
look_up id_map id = elim (get_elem? id_map id) [
  | none ↦ throw internal_error
  | some new_id ↦ ok new_id
]

module _ {ℓ} {V : Type ℓ} where
  -- `reserve_for_bulk_build`: the reserved capacities do not show.
  pub reserve_for_bulk_build : ExplorationGraph V → ℕ → ExplorationGraph V
  reserve_for_bulk_build g threads = record g {
    thread_state = grow threads fresh_thread g.thread_state;
    thread_event_ids = grow threads [] g.thread_event_ids;
    receive_event_ids_by_thread = grow threads [] g.receive_event_ids_by_thread;
  }

  -- Storage for thread `t`, where the three vectors grow together.
  abbrev pub reserve_thread : ExplorationGraph V → ℕ → ExplorationGraph V
  reserve_thread g t =
      if leb (length g.thread_state) t
      then record g {
        thread_state = grow (suc t) fresh_thread g.thread_state;
        thread_event_ids = grow (suc t) [] g.thread_event_ids;
        receive_event_ids_by_thread = grow (suc t) [] g.receive_event_ids_by_thread;
      }
      else g

  -- The caches after event `id` of thread `t`, for which there is storage.
  pub bulk_caches : ExplorationGraph V → ℕ → ℕ → ExplorationGraph V
  bulk_caches g t id =
      let state = get_or g.thread_state t fresh_thread in
      record g {
        thread_state =
            set g.thread_state t
              (record { event_count = state.event_count + 1; last_event_id = some id });
        thread_event_ids = set g.thread_event_ids t (get_or g.thread_event_ids t [] ++ id ∷ []);
        receive_event_ids_by_thread =
            if tests is_receive g id
            then set g.receive_event_ids_by_thread t
                (get_or g.receive_event_ids_by_thread t [] ++ id ∷ [])
            else g.receive_event_ids_by_thread;
        send_event_ids =
            if tests is_send g id then g.send_event_ids ++ id ∷ [] else g.send_event_ids;
        send_reader_counts = grow (suc id) 0 g.send_reader_counts;
        unread_send_mask =
            if tests is_send g id
            then set (grow (suc id) false g.unread_send_mask) id true
            else grow (suc id) false g.unread_send_mask;
      }

  -- Unlike add_event, this leaves the memo of the reachability as it was, which the model has no field
  -- for; restrict_from_keep_mask calls it on a graph without one.
  pub append_event_for_bulk_build :
      ExplorationGraph V → ℕ → EventLabel V → Result (ExplorationGraph V)
  unfolding bulk_caches
  append_event_for_bulk_build g t label = do
    r ← Graph.add_event g.graph t label
    ok (
        update_acyclicity_after_add_event
          (bulk_caches (reserve_thread (record g { graph = r.0 }) t) t r.1) r.1)

  pub append_kept : ExplorationGraph V → List ℕ → ExplorationGraph V → Result (ExplorationGraph V)
  unfolding append_event_for_bulk_build
  append_kept g [] result = ok result
  append_kept g (old_id ∷ kept_ids) result = do
    e ← event g.graph old_id
    result' ← append_event_for_bulk_build result e.thread e.label
    append_kept g kept_ids result'

  pub remap_entry :
      List (Option ℕ) → ExplorationGraph V → ℕ × ReadsFromSource → Result (ExplorationGraph V)
  unfolding set_reads_from set_reads_from_bottom
  remap_entry id_map result (recv_id, bottom) = do
    recv ← look_up id_map recv_id
    elim recv [ none ↦ ok result | some new_recv ↦ set_reads_from_bottom result new_recv ]
  remap_entry id_map result (recv_id, from_send source_id) = do
    recv ← look_up id_map recv_id
    elim recv [
      | none ↦ ok result
      | some new_recv ↦ look_up id_map source_id >>= λ source. elim source [
        | none ↦ ok result
        | some new_source ↦ set_reads_from result new_recv new_source
      ]
    ]

  pub remap_entries :
      List (Option ℕ)
      → List (ℕ × ReadsFromSource)
      → ExplorationGraph V
      → Result (ExplorationGraph V)
  unfolding remap_entry
  remap_entries id_map [] result = ok result
  remap_entries id_map (entry ∷ entries) result = do
    result' ← remap_entry id_map result entry
    remap_entries id_map entries result'

  unfoldable pub restrict_from_keep_mask :
      ExplorationGraph V → List Bool → Result (ExplorationGraph V)
  unfolding kept_from id_map_from reserve_for_bulk_build append_kept remap_entries
      mark_known_acyclic invalidate_known_acyclicity clear_worker_local_history
  restrict_from_keep_mask g mask = do
    throw_if (not (length mask == event_count g)) internal_error
    let start = reserve_for_bulk_build empty (length g.thread_state)
    built ← append_kept g (kept_from 0 mask) start
    bound ← remap_entries (id_map_from 0 mask) (to_list g.graph.reads_from) built
    ok (
        clear_worker_local_history
          (if g.known_acyclic then mark_known_acyclic bound else invalidate_known_acyclicity bound))
