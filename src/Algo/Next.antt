-- ===== src/Algo/Next.antt =====
-- include/dpor/algo/dpor.hpp, compute_next_event and what it asks: next_P of the algorithm.
pub mod Laws
pub mod Sends
pub mod Given
use cpp_dpor.Prelude.{
  ℕ, zero, suc, ◌+◌, ◌-◌, ◌*◌, ◌^◌, ◌≤◌, ◌<◌, max, ◌≡◌, ◌≢◌, ◌↔◌, ◌⊎◌, inl, inr, refl, sym, ap, ◌∙◌,
  Bool, true, false, not, ◌&&◌, ◌||◌, List, [], ◌∷◌, ◌++◌, map, Option, some, none, arith, ltb, leb,
  ◌==◌, if◌then◌else◌, ltb→lt, lt→ltb, ltb-eq-false, ltb-false→le, leb→le, ==_iff, ==_refl, ==→eq,
  Bool-cases, Option-cases, List-cases, bool_ext, length, get_elem?, get_or, set, replicate,
  length-append, length-set, length-replicate, get_or-replicate, get_or-of_le, get_elem?-of_le,
  get_elem?-of_lt, get_elem?-append_left, get_elem?-append_last, pop_back, back?, pop_back-append,
  back?-append, get_or-set, lt-length_of_get_elem?, get_elem?-concat, grow, get_or-grow,
  le-length-grow, length-grow, put, get_or-put, elem, count, elem-count, count-append, elem-append,
  elem_of_get_elem?, get_elem?_of_elem, All, All-append, All-map,
}
use cpp_dpor.Errors.{Result, ok, throw, thread_function, user_code_error, ◌>>=◌, ◌>>◌}
use cpp_dpor.Event.{
  EventLabel, ReceiveLabel, receive, send, nondet, block, error, as_send, accepts, is_blocking,
}
use cpp_dpor.Program.{ThreadMap, at, assigned, validate_compact_thread_ids}
use cpp_dpor.Exploration.{ExplorationGraph, event_at}
use cpp_dpor.Exploration.Queries.{
  any_unread_send, unread_send_event_ids, filter, thread_is_terminated, thread_event_count,
  thread_trace,
}
use cpp_dpor.Algo.Config.{ThreadFunction, invoke_user_code}

abbrev pub threads_of {ℓ} : {A : Type ℓ} → List (ℕ × A) → List ℕ
threads_of [] = []
threads_of ((t, a) ∷ entries) = t ∷ threads_of entries

pub record NextEventResult {ℓ} (V : Type ℓ) : Type ℓ where
  pub next : Option (ℕ × EventLabel V)
  pub suppressed_by_thread_event_limit : Bool

module _ {ℓ} {V : Type ℓ} where
  unfoldable pub sorted_thread_ids : ThreadMap (ThreadFunction V) → Result (List ℕ)
  sorted_thread_ids program = do
    validate_compact_thread_ids program
    ok (threads_of (assigned program))

  -- An event that is a send to thread `t` with a value that the receive accepts.
  abbrev pub is_compatible : ExplorationGraph V → ℕ → ReceiveLabel V → ℕ → Bool
  is_compatible g t r id = elim (event_at g id) [
    | none ↦ false
    | some e ↦ elim (as_send e) [ none ↦ false | some s ↦ s.destination == t && accepts r s.value ]
  ]

  unfoldable pub has_compatible_unread_send : ExplorationGraph V → ℕ → ReceiveLabel V → Bool
  has_compatible_unread_send g t r = any_unread_send g (is_compatible g t r)

  unfoldable pub compatible_unread_send_ids : ExplorationGraph V → ℕ → ReceiveLabel V → List ℕ
  compatible_unread_send_ids g t r = filter (is_compatible g t r) (unread_send_event_ids g)

  unfoldable pub compute_max_thread_event_depth : ExplorationGraph V → List ℕ → ℕ
  compute_max_thread_event_depth g [] = 0
  compute_max_thread_event_depth g (t ∷ ts) =
      max (thread_event_count g t) (compute_max_thread_event_depth g ts)

  -- What becomes of a label that the function of thread `t` returned.
  unfoldable pub next_label : ExplorationGraph V → ℕ → EventLabel V → Result (EventLabel V)
  unfolding has_compatible_unread_send
  next_label g t block = throw (user_code_error thread_function (some t))
  next_label g t (receive r) =
      ok (if is_blocking r && not (has_compatible_unread_send g t r) then block else receive r)
  next_label g t (send s) = ok (send s)
  next_label g t (nondet c) = ok (nondet c)
  next_label g t (error m) = ok (error m)

  -- The call of a thread function on the trace of its thread.
  unfoldable pub ask_thread :
      ThreadMap (ThreadFunction V) → ExplorationGraph V → ℕ → ℕ → Result (Option (EventLabel V))
  unfolding invoke_user_code
  ask_thread program g t step = do
    thread_fn ← at program t
    trace ← thread_trace g t
    invoke_user_code thread_function (some t) (thread_fn trace step)

  unfoldable pub at_limit : ExplorationGraph V → ℕ → ℕ → Bool
  at_limit g max_thread_events t =
      not (max_thread_events == 0) && leb max_thread_events (thread_event_count g t)

  -- The loop over the threads, `suppressed` the flag so far.
  unfoldable pub next_from :
      ThreadMap (ThreadFunction V)
      → ExplorationGraph V
      → ℕ
      → Bool
      → List ℕ
      → Result (NextEventResult V)
  unfolding next_label ask_thread at_limit
  next_from program g max_thread_events suppressed [] =
      ok (record { next = none; suppressed_by_thread_event_limit = suppressed })
  next_from program g max_thread_events suppressed (t ∷ ts) =
      let rest = next_from program g max_thread_events suppressed ts in
      let rest_of_suppressed = next_from program g max_thread_events true ts in
      if thread_is_terminated g t
      then rest
      else if at_limit g max_thread_events t
      then rest_of_suppressed
      else (ask_thread program g t (thread_event_count g t) >>= λ answer. elim answer [
        | none ↦ rest
        | some returned ↦ next_label g t returned >>= λ label.
            ok (record { next = some (t, label); suppressed_by_thread_event_limit = suppressed })
      ])

  unfoldable pub compute_next_event :
      ThreadMap (ThreadFunction V) → ExplorationGraph V → List ℕ → ℕ → Result (NextEventResult V)
  unfolding next_from
  compute_next_event program g thread_ids max_thread_events =
      next_from program g max_thread_events false thread_ids
