-- ===== src/Exploration/Cached/Reached.antt =====
-- include/dpor/model/exploration_graph.hpp, add_event and set_reads_from_source: the caches of the
-- events along the runs of both.
use cpp_dpor.Prelude.{ℕ, ◌≡◌, refl, sym, ◌∙◌, ◌∷◌, Option, some, none, arith}
use mathlib.Core.Path.{subst}
use cpp_dpor.Errors.{ok, ◌>>=◌, >>=-eq-ok, ok-injective}
use cpp_dpor.Event.{is_send}
use cpp_dpor.Graph.{ExecutionGraph, ids_where, event}
use cpp_dpor.Graph
use cpp_dpor.Graph.ThreadOrder.Ids.{ids_where-nil}
use cpp_dpor.Graph.ReadsFrom.{ReadsFromSource, from_send, bottom}
use cpp_dpor.Exploration.{
  ExplorationGraph, set_reads_from_source, update_send_reader_state, drop_source, take_source,
  update_acyclicity_after_rf_assignment, current_reads_from_source,
}
use cpp_dpor.Exploration.Acyclic.Sound.{Reached, start, add, assign, Reached-IsSound}
use cpp_dpor.Exploration.Cached.{IsCached, in_thread, receives_in, add_event-IsCached}

module _ {ℓ} {V : Type ℓ} where
  -- What the caches of the events are about stays as it was.
  record SameCaches (g h : ExplorationGraph V) : Type ℓ where
    same_events : h.graph.events ≡ g.graph.events
    same_state : h.thread_state ≡ g.thread_state
    same_ids : h.thread_event_ids ≡ g.thread_event_ids
    same_receives : h.receive_event_ids_by_thread ≡ g.receive_event_ids_by_thread
    same_sends : h.send_event_ids ≡ g.send_event_ids

  SameCaches-refl : (g : ExplorationGraph V) → SameCaches g g
  SameCaches-refl g = record {
    same_events = refl;
    same_state = refl;
    same_ids = refl;
    same_receives = refl;
    same_sends = refl;
  }

  SameCaches-trans : {f g h : ExplorationGraph V} → SameCaches f g → SameCaches g h → SameCaches f h
  SameCaches-trans s t = record {
    same_events = t.same_events ∙ s.same_events;
    same_state = t.same_state ∙ s.same_state;
    same_ids = t.same_ids ∙ s.same_ids;
    same_receives = t.same_receives ∙ s.same_receives;
    same_sends = t.same_sends ∙ s.same_sends;
  }

  drop_source-SameCaches :
      (g h : ExplorationGraph V) (s : Option ReadsFromSource)
      → drop_source g s ≡ ok h
      → SameCaches g h
  unfolding drop_source
  drop_source-SameCaches g h none e = subst (SameCaches g) (ok-injective e) (SameCaches-refl g)
  drop_source-SameCaches g h (some bottom) e =
      subst (SameCaches g) (ok-injective e) (SameCaches-refl g)
  drop_source-SameCaches g h (some (from_send a)) e = record {
    same_events = ground arith;
    same_state = ground arith;
    same_ids = ground arith;
    same_receives = ground arith;
    same_sends = ground arith;
  }

  take_source-SameCaches :
      (g : ExplorationGraph V) (s : ReadsFromSource) → SameCaches g (take_source g (some s))
  unfolding take_source
  take_source-SameCaches g bottom = SameCaches-refl g
  take_source-SameCaches g (from_send a) = record {
    same_events = ground arith;
    same_state = ground arith;
    same_ids = ground arith;
    same_receives = ground arith;
    same_sends = ground arith;
  }

  update-SameCaches :
      (g : ExplorationGraph V) (id : ℕ) (s : ReadsFromSource)
      → SameCaches g (update_acyclicity_after_rf_assignment g id s)
  unfolding update_acyclicity_after_rf_assignment
  update-SameCaches g id bottom = record {
    same_events = ground arith;
    same_state = ground arith;
    same_ids = ground arith;
    same_receives = ground arith;
    same_sends = ground arith;
  }
  update-SameCaches g id (from_send a) = record {
    same_events = ground arith;
    same_state = ground arith;
    same_ids = ground arith;
    same_receives = ground arith;
    same_sends = ground arith;
  }

  set_reads_from_source-SameCaches :
      (g g' : ExplorationGraph V) (id : ℕ) (s : ReadsFromSource)
      → set_reads_from_source g id s ≡ ok g'
      → SameCaches g g'
  unfolding set_reads_from_source update_send_reader_state Graph.set_reads_from_source
  set_reads_from_source-SameCaches g g' id s ran =
      let previous = current_reads_from_source g id in
      let g1 : ExplorationGraph V = record g {
        graph = Graph.set_reads_from_source g.graph id s;
        rf_undo_log = record { receive_id = id; previous_source = previous } ∷ g.rf_undo_log;
      } in
      let (h, e, f) =
        >>=-eq-ok (drop_source g1 previous >>= λ k. ok (take_source k (some s)))
          (λ k. ok (update_acyclicity_after_rf_assignment k id s)) ran in
      let (k, e', f') = >>=-eq-ok (drop_source g1 previous) (λ k. ok (take_source k (some s))) e in
      let first : SameCaches g g1 = record {
        same_events = refl;
        same_state = refl;
        same_ids = refl;
        same_receives = refl;
        same_sends = refl;
      } in
      let taken = subst (SameCaches k) (ok-injective f') (take_source-SameCaches k s) in
      let updated = subst (SameCaches h) (ok-injective f) (update-SameCaches h id s) in
      SameCaches-trans first (
        SameCaches-trans (drop_source-SameCaches g1 k previous e') (SameCaches-trans taken updated))

  SameCaches-IsCached : {g h : ExplorationGraph V} → SameCaches g h → IsCached g → IsCached h
  SameCaches-IsCached s c = record {
    by_thread = λ t. rw (s.same_ids, s.same_events) (c.by_thread t);
    receives_by_thread = λ t. rw (s.same_receives, s.same_events) (c.receives_by_thread t);
    sends = s.same_sends ∙ rw s.same_events c.sends;
    counts = λ t. rw (s.same_state, s.same_events) (c.counts t);
    lasts = λ t. rw (s.same_state, s.same_events) (c.lasts t);
  }

  -- In a graph that successful calls of add_event and set_reads_from_source built from the empty
  -- one, the lists by thread hold the ids of the events of each thread and of its receives, the
  -- list of sends those of all sends, each ascending, and the state of a thread counts its events
  -- and names the last one.
  pub Reached-IsCached : (g : ExplorationGraph V) → Reached g → IsCached g
  Reached-IsCached g start = record {
    by_thread = λ t. sym (ids_where-nil (in_thread t) 0);
    receives_by_thread = λ t. sym (ids_where-nil (receives_in t) 0);
    sends = sym (ids_where-nil is_send 0);
    counts = λ t. rw (ids_where-nil {V = V} (in_thread t) 0) refl;
    lasts = λ t. rw (ids_where-nil {V = V} (in_thread t) 0) refl;
  }
  Reached-IsCached g' (add {g} t id label r h) =
      add_event-IsCached g g' t id label (Reached-IsSound g r).0 (Reached-IsCached g r) h
  Reached-IsCached g' (assign {g} id source r h) =
      SameCaches-IsCached (set_reads_from_source-SameCaches g g' id source h) (Reached-IsCached g r)
