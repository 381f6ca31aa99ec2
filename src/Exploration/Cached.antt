-- ===== src/Exploration/Cached.antt =====
-- include/dpor/model/exploration_graph.hpp, add_event: the caches by thread and of the sends,
-- described by the events.
pub mod Reached
use cpp_dpor.Prelude.{
  ℕ, zero, suc, ◌+◌, ◌-◌, ◌*◌, ◌^◌, ◌≤◌, ◌<◌, max, ◌≡◌, ◌≢◌, ◌↔◌, ◌⊎◌, inl, inr, refl, sym, ap, ◌∙◌,
  Bool, true, false, not, ◌&&◌, ◌||◌, List, [], ◌∷◌, ◌++◌, map, Option, some, none, arith, ltb, leb,
  ◌==◌, if◌then◌else◌, ltb→lt, lt→ltb, ltb-eq-false, ltb-false→le, leb→le, ==_iff, ==_refl, ==→eq,
  Bool-cases, Option-cases, bool_ext, length, get_elem?, get_or, set, replicate, length-append,
  length-set, length-replicate, get_or-replicate, get_or-of_le, get_elem?-of_le, get_elem?-of_lt,
  get_elem?-append_left, get_elem?-append_last, pop_back, back?, pop_back-append, back?-append,
  get_or-set, lt-length_of_get_elem?, get_elem?-concat, grow, get_or-grow, le-length-grow,
  length-grow, put, get_or-put, elem, count, elem-count, count-append, elem-append,
  elem_of_get_elem?, get_elem?_of_elem, All, All-append, All-map,
}
use mathlib.Core.Path.{subst}
use cpp_dpor.Errors.{ok}
use cpp_dpor.Event.{Event, EventLabel, is_receive, is_send}
use cpp_dpor.Graph.{ExecutionGraph, ids_where}
use cpp_dpor.Graph
use cpp_dpor.Graph.WellFormed.{IsWellFormed}
use cpp_dpor.Graph.ThreadOrder.Ids.{ids_where-append}
use cpp_dpor.Exploration.{
  ExplorationGraph, ThreadState, empty, fresh_thread, tests, event_at, event_count,
  update_acyclicity_after_add_event,
}
use cpp_dpor.Exploration.Insert.{add_event, entered, enter_caches, add_event-entered}
use cpp_dpor.Exploration.Acyclic.Sound.{Grown, add_event-Grown}

module _ {ℓ} {V : Type ℓ} where
  abbrev pub in_thread : ℕ → Event V → Bool
  in_thread t e = e.thread == t

  abbrev pub receives_in : ℕ → Event V → Bool
  receives_in t e = is_receive e && e.thread == t

  -- The caches list the events of each thread, its receives and all sends, by ascending id; the state
  -- of a thread counts its events and names the last.
  pub record IsCached (g : ExplorationGraph V) : Type 0 where
    pub by_thread :
        (t : ℕ) → get_or g.thread_event_ids t [] ≡ ids_where (in_thread t) 0 g.graph.events
    pub receives_by_thread :
        (t : ℕ)
        → get_or g.receive_event_ids_by_thread t [] ≡ ids_where (receives_in t) 0 g.graph.events
    pub sends : g.send_event_ids ≡ ids_where is_send 0 g.graph.events
    pub counts :
        (t : ℕ)
        → (get_or g.thread_state t fresh_thread).event_count
          ≡ length (ids_where (in_thread t) 0 g.graph.events)
    pub lasts :
        (t : ℕ)
        → (get_or g.thread_state t fresh_thread).last_event_id
          ≡ back? (ids_where (in_thread t) 0 g.graph.events)

  module _ (g : ExplorationGraph V) (t id : ℕ) (graph' : ExecutionGraph V)
      (n : Grown g.graph graph' t id) (c : IsCached g) where
    listed :
        (test : Event V → Bool)
        → ids_where test 0 graph'.events ≡ (
            if test n.added
            then ids_where test 0 g.graph.events ++ id ∷ []
            else ids_where test 0 g.graph.events)
    listed test =
        let here : 0 + length g.graph.events ≡ length g.graph.events = omega arith in
        rw n.at_end (rw n.last (ids_where-append test 0 g.graph.events n.added ∙ rw here refl))

    at_id : get_elem? graph'.events id ≡ some n.added
    at_id = rw n.at_end (rw n.last (get_elem?-append_last g.graph.events n.added))

    receive_id : ℕ → List (List ℕ)
    receive_id j =
        if is_receive n.added
        then put g.receive_event_ids_by_thread t []
            (get_or g.receive_event_ids_by_thread t [] ++ id ∷ [])
        else grow (suc t) [] g.receive_event_ids_by_thread

    receives-listed :
        (j : ℕ) → get_or (receive_id j) j [] ≡ ids_where (receives_in j) 0 graph'.events
    unfolding receive_id
    receives-listed j = elim (Bool-cases (is_receive n.added)) [
      | inl received ↦ rw (listed (receives_in j)) (
          rw received (
            rw n.of_caller (
              get_or-put g.receive_event_ids_by_thread t j [] _
              ∙ ground (arith, c.receives_by_thread j, c.receives_by_thread t, ==→eq t j))))
      | inr other ↦ rw (listed (receives_in j)) (
          rw other
            (get_or-grow (suc t) [] g.receive_event_ids_by_thread j ∙ c.receives_by_thread j))
    ]

    state : ThreadState
    state = record {
      event_count = (get_or g.thread_state t fresh_thread).event_count + 1;
      last_event_id = some id;
    }

    state-counted :
        (j : ℕ)
        → (get_or (put g.thread_state t fresh_thread state) j fresh_thread).event_count
          ≡ length (ids_where (in_thread j) 0 graph'.events)
    unfolding state
    state-counted j = elim (Bool-cases (t == j)) [
      | inl same ↦
          let e = ==→eq t j same in
          rw (get_or-put g.thread_state t j fresh_thread state) (
            rw (listed (in_thread j)) (
              rw n.of_caller (
                rw same (
                  ap (λ (k : ℕ). k + 1) (c.counts t)
                  ∙ (ap (λ (k : ℕ). length (ids_where (in_thread k) 0 g.graph.events) + 1) e
                      ∙ sym
                          (length-append (ids_where (in_thread j) 0 g.graph.events) (id ∷ [])))))))
      | inr differ ↦
          rw (get_or-put g.thread_state t j fresh_thread state)
            (rw (listed (in_thread j)) (rw n.of_caller (rw differ (c.counts j))))
    ]

    state-last :
        (j : ℕ)
        → (get_or (put g.thread_state t fresh_thread state) j fresh_thread).last_event_id
          ≡ back? (ids_where (in_thread j) 0 graph'.events)
    unfolding state
    state-last j = elim (Bool-cases (t == j)) [
      | inl same ↦ rw (get_or-put g.thread_state t j fresh_thread state) (
          rw (listed (in_thread j)) (
            rw n.of_caller
              (rw same (sym (back?-append (ids_where (in_thread j) 0 g.graph.events) id)))))
      | inr differ ↦
          rw (get_or-put g.thread_state t j fresh_thread state)
            (rw (listed (in_thread j)) (rw n.of_caller (rw differ (c.lasts j))))
    ]

    entered-IsCached : IsCached (entered g t graph' id)
    unfolding entered enter_caches update_acyclicity_after_add_event state receive_id
    entered-IsCached = record {
      by_thread = λ j. rw (listed (in_thread j)) (
          rw n.of_caller (
            get_or-put g.thread_event_ids t j [] _
            ∙ ground (arith, c.by_thread j, c.by_thread t, ==→eq t j)));
      receives_by_thread = λ j. ground (arith, at_id, receives-listed j);
      sends = ground (arith, at_id, listed is_send, c.sends);
      counts = λ j. state-counted j;
      lasts = λ j. state-last j;
    }

  pub add_event-IsCached :
      (g g' : ExplorationGraph V) (t id : ℕ) (label : EventLabel V)
      → IsWellFormed g.graph
      → IsCached g
      → add_event g t label ≡ ok (g', id)
      → IsCached g'
  add_event-IsCached g g' t id label v c h =
      let (graph', ran, is_g') = add_event-entered g g' t id label h in
      subst (λ (x : ExplorationGraph V). IsCached x) (sym is_g')
        (entered-IsCached g t id graph' (add_event-Grown g.graph graph' t id label v ran) c)
