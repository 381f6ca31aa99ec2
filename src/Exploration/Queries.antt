-- ===== src/Exploration/Queries.antt =====
-- include/dpor/model/exploration_graph.hpp, ExplorationGraphT: what is asked of the caches.
use cpp_dpor.Prelude.{
  ℕ, Bool, true, false, not, ◌&&◌, ◌||◌, List, [], ◌∷◌, ◌++◌, Option, some, none, leb, ◌==◌,
  if◌then◌else◌, get_or,
}
use cpp_dpor.Errors.{Result, ok, throw, throw_if, precondition_error, ◌>>◌, ◌>>=◌}
use cpp_dpor.Event.{
  Event, ObservedValue, SendLabel, is_block, is_error, as_receive, as_send,
  as_nondeterministic_choice,
}
use cpp_dpor.Graph.{event}
use cpp_dpor.Graph.ReadsFrom
use cpp_dpor.Graph.ReadsFrom.{ReadsFromSource, from_send, bottom}
use cpp_dpor.Exploration.{ExplorationGraph, ThreadState, fresh_thread, tests, event_count}

unfoldable pub filter : (ℕ → Bool) → List ℕ → List ℕ
filter p [] = []
filter p (x ∷ xs) = if p x then x ∷ filter p xs else filter p xs

unfoldable pub any : (ℕ → Bool) → List ℕ → Bool
any p [] = false
any p (x ∷ xs) = if p x then true else any p xs

module _ {ℓ} {V : Type ℓ} where
  unfoldable pub inserted_before_or_equal : ExplorationGraph V → ℕ → ℕ → Result Bool
  inserted_before_or_equal g a b = do
    throw_if (leb (event_count g) a || leb (event_count g) b) precondition_error
    ok (leb a b)

  abbrev is_unread : ExplorationGraph V → ℕ → Bool
  is_unread g id = get_or g.unread_send_mask id false

  -- What `for_each_unread_send` hands to its callback, in order.
  unfoldable pub unread_send_event_ids : ExplorationGraph V → List ℕ
  unfolding filter
  unread_send_event_ids g = filter (is_unread g) g.send_event_ids

  unfoldable pub any_unread_send : ExplorationGraph V → (ℕ → Bool) → Bool
  unfolding any
  any_unread_send g p = any (λ id. is_unread g id && p id) g.send_event_ids

  abbrev state_of : ExplorationGraph V → ℕ → ThreadState
  state_of g t = get_or g.thread_state t fresh_thread

  -- The last event of a thread's state passes a test; a state without events fails it. A state that
  -- counts events names the last one.
  abbrev last_passes : (Event V → Bool) → ExplorationGraph V → ThreadState → Bool
  last_passes p g state =
      not (state.event_count == 0)
      && elim state.last_event_id [ none ↦ false | some id ↦ tests p g id ]

  unfoldable pub thread_is_terminated : ExplorationGraph V → ℕ → Bool
  thread_is_terminated g t = last_passes (λ e. is_block e || is_error e) g (state_of g t)

  pub any_blocked : ExplorationGraph V → List ThreadState → Bool
  any_blocked g [] = false
  any_blocked g (state ∷ states) =
      if last_passes is_block g state then true else any_blocked g states

  unfoldable pub has_blocked_thread : ExplorationGraph V → Bool
  unfolding any_blocked
  has_blocked_thread g = any_blocked g g.thread_state

  unfoldable pub thread_event_count : ExplorationGraph V → ℕ → ℕ
  thread_event_count g t = (state_of g t).event_count

  unfoldable pub last_event_id : ExplorationGraph V → ℕ → Option ℕ
  last_event_id g t =
      let state = state_of g t in if state.event_count == 0 then none else state.last_event_id

  -- What a source that is a send shows.
  abbrev shown : Option (SendLabel V) → List (ObservedValue V)
  shown none = []
  shown (some s) = ObservedValue.value s.value ∷ []

  -- What one event adds to the trace.
  pub observed_at : ExplorationGraph V → ℕ → Result (List (ObservedValue V))
  observed_at g id = do
    e ← event g.graph id
    elim (as_receive e) [
      | some r ↦ elim (ReadsFrom.find g.graph.reads_from id) [
        | none ↦ ok []
        | some bottom ↦ ok (ObservedValue.bottom ∷ [])
        | some (from_send a) ↦ event g.graph a >>= λ s. ok (shown (as_send s))
      ]
      | none ↦ elim (as_nondeterministic_choice e) [
        | none ↦ ok []
        | some nd ↦ ok (ObservedValue.value nd.value ∷ [])
      ]
    ]

  pub trace_of : ExplorationGraph V → List ℕ → Result (List (ObservedValue V))
  unfolding observed_at
  trace_of g [] = ok []
  trace_of g (id ∷ ids) = do now ← observed_at g id; rest ← trace_of g ids; ok (now ++ rest)

  -- With the empty buffer that `thread_trace` hands to `thread_trace_into`.
  unfoldable pub thread_trace : ExplorationGraph V → ℕ → Result (List (ObservedValue V))
  unfolding trace_of
  thread_trace g t = trace_of g (get_or g.thread_event_ids t [])

  unfoldable pub receives_in_destination : ExplorationGraph V → ℕ → Result (List ℕ)
  receives_in_destination g id = do
    e ← event g.graph id
    elim (as_send e) [
      | none ↦ throw precondition_error
      | some s ↦ ok (get_or g.receive_event_ids_by_thread s.destination [])
    ]
