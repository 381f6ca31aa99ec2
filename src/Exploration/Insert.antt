-- ===== src/Exploration/Insert.antt =====
-- include/dpor/model/exploration_graph.hpp, ExplorationGraphT::add_event.
use cpp_dpor.Prelude.{
  ℕ, suc, ◌+◌, ◌≡◌, refl, sym, ap, ◌∙◌, true, false, ◌&&◌, List, [], ◌∷◌, ◌++◌, some, none,
  if◌then◌else◌, get_or, grow, put,
}
use cpp_dpor.Errors.{Result, ok, ◌>>=◌, >>=-eq-ok, ok-injective}
use cpp_dpor.Event.{EventLabel, is_receive, is_send}
use cpp_dpor.Graph.{ExecutionGraph, next_of}
use cpp_dpor.Graph
use cpp_dpor.Exploration.{
  ExplorationGraph, EventUndo, fresh_thread, tests, event_at, update_acyclicity_after_add_event,
}

abbrev push_back : List (List ℕ) → ℕ → ℕ → List (List ℕ)
push_back buckets t id = put buckets t [] (get_or buckets t [] ++ id ∷ [])

module _ {ℓ} {V : Type ℓ} where
  -- The caches after event `id` of thread `t` was appended to the graph.
  unfoldable pub enter_caches : ExplorationGraph V → ℕ → ℕ → ExplorationGraph V
  enter_caches g t id =
      let state = get_or g.thread_state t fresh_thread in
      record g {
        thread_state =
            put g.thread_state t fresh_thread
              (record { event_count = state.event_count + 1; last_event_id = some id });
        thread_event_ids = push_back g.thread_event_ids t id;
        receive_event_ids_by_thread =
            if tests is_receive g id
            then push_back g.receive_event_ids_by_thread t id
            else grow (suc t) [] g.receive_event_ids_by_thread;
        send_event_ids =
            if tests is_send g id then g.send_event_ids ++ id ∷ [] else g.send_event_ids;
        send_reader_counts = grow (suc id) 0 g.send_reader_counts;
        unread_send_mask =
            if tests is_send g id
            then put g.unread_send_mask id false true
            else grow (suc id) false g.unread_send_mask;
      }

  -- `event(id).index` of the event just added.
  abbrev index_of : ExplorationGraph V → ℕ → ℕ
  index_of g id = elim (event_at g id) [ none ↦ 0 | some e ↦ e.index ]

  -- The graph after its execution graph has become `graph'`, with event `id` of thread `t` added.
  unfoldable pub entered : ExplorationGraph V → ℕ → ExecutionGraph V → ℕ → ExplorationGraph V
  unfolding enter_caches
  entered g t graph' id =
      let g1 = record g { graph = graph' } in
      let undo : EventUndo = record {
        event_id = id;
        thread = t;
        event_index = index_of g1 id;
        previous_thread_state = get_or g.thread_state t fresh_thread;
        previous_next_event_index = next_of g.graph t;
      } in
      update_acyclicity_after_add_event
        (enter_caches (record g1 { event_undo_log = undo ∷ g1.event_undo_log }) t id) id

  unfoldable pub add_event : ExplorationGraph V → ℕ → EventLabel V → Result (ExplorationGraph V × ℕ)
  unfolding entered
  add_event g t label = do r ← Graph.add_event g.graph t label; ok (entered g t r.0 r.1, r.1)

  -- A successful call is one of the execution graph, with the caches brought up to date.
  pub add_event-entered :
      (g g' : ExplorationGraph V) (t id : ℕ) (label : EventLabel V)
      → add_event g t label ≡ ok (g', id)
      → (graph' : ExecutionGraph V) × (Graph.add_event g.graph t label ≡ ok (graph', id))
        × (g' ≡ entered g t graph' id)
  unfolding add_event
  add_event-entered g g' t id label h =
      let (r, e, f) =
        >>=-eq-ok (Graph.add_event g.graph t label) (λ r. ok (entered g t r.0 r.1, r.1)) h in
      let same = ok-injective f in
      let ids = ap (λ (p : ExplorationGraph V × ℕ). p.1) same in
      let graphs = ap (λ (p : ExplorationGraph V × ℕ). p.0) same in
      (r.0, e ∙ ap (λ (k : ℕ). ok (r.0, k)) ids, sym graphs ∙ ap (entered g t r.0) ids)

  pub entered-flags :
      (g : ExplorationGraph V) (t id : ℕ) (graph' : ExecutionGraph V)
      → ((entered g t graph' id).graph ≡ graph')
        × ((entered g t graph' id).known_acyclic ≡ g.known_acyclic)
        × ((entered g t graph' id).pending_fresh_receive_id ≡ (
            if g.known_acyclic && tests is_receive (entered g t graph' id) id
            then some id
            else none))
  unfolding entered update_acyclicity_after_add_event enter_caches
  entered-flags g t id graph' = (refl, refl, refl)
