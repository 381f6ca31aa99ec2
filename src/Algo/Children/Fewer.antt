-- ===== src/Algo/Children/Fewer.antt =====
-- include/dpor/algo/dpor.hpp, find_blocked_receive_reschedule_child: the size of the graph that it gives.
use cpp_dpor.Prelude.{
  ℕ, ◌+◌, ◌-◌, ◌<◌, ◌≡◌, inl, inr, refl, sym, ap, ◌∙◌, Bool, true, false, List, [], ◌∷◌, Option,
  some, arith, Bool-cases, Option-cases, get_elem?, lt-length_of_get_elem?,
}
use cpp_dpor.Errors.{ok, >>=-eq-ok, ok-injective}
use cpp_dpor.Event.{Event}
use cpp_dpor.Program.{ThreadMap}
use cpp_dpor.Graph.{event}
use cpp_dpor.Exploration.{ExplorationGraph, event_count}
use cpp_dpor.Exploration.Queries.{last_event_id, thread_event_count}
use cpp_dpor.Exploration.Restrict.Size.{restrict_without-count}
use cpp_dpor.Algo.Config.{ThreadFunction}
use cpp_dpor.Algo.Next.{ask_thread, has_compatible_unread_send}
use cpp_dpor.Algo.Children.{
  ready, stop_requested, asked_again, trailing_block, without_event,
  find_blocked_receive_reschedule_child,
}

module _ {ℓ} {V : Type ℓ} where
  event-below :
      (g : ExplorationGraph V) (id : ℕ) (e : Event V) → event g.graph id ≡ ok e → id < event_count g
  unfolding event
  event-below g id e ran = elim (Option-cases (get_elem? g.graph.events id)) [
    | inl absent ↦ cc (rw (absent, event) at ran)
    | inr (d, at) ↦ lt-length_of_get_elem? g.graph.events id at
  ]

  trailing_block-below :
      (g : ExplorationGraph V) (t : ℕ) (id : ℕ)
      → trailing_block g t ≡ ok (some id)
      → id < event_count g
  unfolding trailing_block
  trailing_block-below g t id ran = elim (Option-cases (last_event_id g t)) [
    | inl absent ↦ cc (rw (absent, trailing_block) at ran)
    | inr (last, at) ↦
        let (e, read, f) = >>=-eq-ok (event g.graph last) _ (rw (at, trailing_block) at ran) in
        let below = event-below g last e read in ground (arith, ok-injective f)
  ]

  -- The reschedule of a blocked receive drops an event and adds none.
  pub find_blocked_receive_reschedule_child-count :
      (program : ThreadMap (ThreadFunction V)) (g child : ExplorationGraph V) (stop : Bool)
      (thread_ids : List ℕ)
      → find_blocked_receive_reschedule_child program g stop thread_ids ≡ ok (ready child)
      → event_count child + 1 ≡ event_count g
  unfolding find_blocked_receive_reschedule_child without_event
  find_blocked_receive_reschedule_child-count program g child stop [] ran = cc
  find_blocked_receive_reschedule_child-count program g child true (t ∷ ts) ran = cc
  find_blocked_receive_reschedule_child-count program g child false (t ∷ ts) ran =
      let (last, blocked, rest) = >>=-eq-ok (trailing_block g t) _ ran in
      elim (Option-cases last) [
        | inl none_blocked ↦
            find_blocked_receive_reschedule_child-count program g child false ts
              (rw none_blocked at rest)
        | inr (id, at) ↦
            let (answer, asked, rest') =
              >>=-eq-ok (ask_thread program g t (thread_event_count g t - 1)) _ (rw at at rest) in
            let (label, given, rest'') = >>=-eq-ok (asked_again t answer) _ rest' in
            elim (Bool-cases (has_compatible_unread_send g t label)) [
              | inl found ↦
                  let (r, restricted, f) = >>=-eq-ok (without_event g id) _ (rw found at rest'') in
                  let is_child : r ≡ child = cc (ok-injective f) in
                  rw (sym is_child) (
                    restrict_without-count g r id
                      (trailing_block-below g t id (blocked ∙ ap (λ (o : Option ℕ). ok o) at))
                      restricted)
              | inr lacking ↦
                  find_blocked_receive_reschedule_child-count program g child false ts
                    (rw lacking at rest'')
            ]
      ]

  -- Only a stopped executor ends the search for a receive.
  pub find_blocked_receive_reschedule_child-stop :
      (program : ThreadMap (ThreadFunction V)) (g : ExplorationGraph V) (stop : Bool)
      (thread_ids : List ℕ)
      → find_blocked_receive_reschedule_child program g stop thread_ids ≡ ok stop_requested
      → stop ≡ true
  unfolding find_blocked_receive_reschedule_child
  find_blocked_receive_reschedule_child-stop program g stop [] ran = cc
  find_blocked_receive_reschedule_child-stop program g true (t ∷ ts) ran = refl
  find_blocked_receive_reschedule_child-stop program g false (t ∷ ts) ran =
      let (last, blocked, rest) = >>=-eq-ok (trailing_block g t) _ ran in
      elim (Option-cases last) [
        | inl none_blocked ↦
            find_blocked_receive_reschedule_child-stop program g false ts (rw none_blocked at rest)
        | inr (id, at) ↦
            let (answer, asked, rest') =
              >>=-eq-ok (ask_thread program g t (thread_event_count g t - 1)) _ (rw at at rest) in
            let (label, given, rest'') = >>=-eq-ok (asked_again t answer) _ rest' in
            elim (Bool-cases (has_compatible_unread_send g t label)) [
              | inl found ↦
                  let (r, restricted, f) = >>=-eq-ok (without_event g id) _ (rw found at rest'') in
                  cc (ok-injective f)
              | inr lacking ↦
                  find_blocked_receive_reschedule_child-stop program g false ts
                    (rw lacking at rest'')
            ]
      ]
