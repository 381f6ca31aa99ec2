-- ===== src/Algo/Children.antt =====
-- include/dpor/algo/dpor.hpp: the graphs of the backward revisits of a send, and of a blocked receive
-- that may be asked again.
pub mod Fewer
pub mod Cursor
pub mod Deleted
pub mod Revisited
use cpp_dpor.Prelude.{
  ℕ, zero, suc, ◌+◌, ◌-◌, ◌*◌, ◌^◌, ◌≤◌, ◌<◌, max, ◌≡◌, ◌≢◌, ◌↔◌, ◌⊎◌, inl, inr, refl, sym, ap, ◌∙◌,
  Bool, true, false, not, ◌&&◌, ◌||◌, List, [], ◌∷◌, ◌++◌, map, Option, some, none, arith, ltb, leb,
  ◌==◌, if◌then◌else◌, ltb→lt, lt→ltb, ltb-eq-false, ltb-false→le, leb→le, ==_iff, ==_refl, ==→eq,
  Bool-cases, Option-cases, List-cases, bool_ext, length, get_elem?, get_or, set, replicate,
  length-append, length-set, length-replicate, get_or-replicate, get_or-of_le, get_elem?-of_le,
  get_elem?-of_lt, get_elem?-append_left, get_elem?-append_last, pop_back, back?, pop_back-append,
  back?-append, get_or-set, lt-length_of_get_elem?, get_elem?-concat, grow, get_or-grow,
  le-length-grow, length-grow, put, get_or-put, elem, count, elem-count, count-append, elem-append,
  elem_of_get_elem?, get_elem?_of_elem, All, All-append, All-map,
}
use cpp_dpor.Errors.{
  Result, ok, throw, throw_if, internal_error, thread_function, user_code_error, ◌>>◌, ◌>>=◌,
}
use cpp_dpor.Event.{
  CommunicationModel, Event, EventLabel, ReceiveLabel, NondeterministicChoiceLabel, receive, send,
  nondet, block, error, as_receive, as_send, as_nondeterministic_choice, accepts, is_nonblocking,
  is_receive, is_block,
}
use cpp_dpor.Program.{ThreadMap}
use cpp_dpor.Graph.{event}
use cpp_dpor.Graph.ReadsFrom
use cpp_dpor.Graph.ReadsFrom.{ReadsFromSource, from_send, bottom, to_list}
use cpp_dpor.Exploration.{ExplorationGraph, event_at, event_count}
use cpp_dpor.Exploration.Copies.{rebind_rf_preserving_known_acyclicity}
use cpp_dpor.Exploration.Queries.{inserted_before_or_equal, last_event_id, thread_event_count}
use cpp_dpor.Exploration.Porf.{porf_contains}
use cpp_dpor.Exploration.Restrict.{restrict_from_keep_mask, kept_from}
use cpp_dpor.Algo.Config.{Comparison, ThreadFunction}
use cpp_dpor.Algo.Choices.{min_element}
use cpp_dpor.Algo.Next.{ask_thread, has_compatible_unread_send}
use cpp_dpor.Algo.Tiebreaker.{position_of}
use cpp_dpor.Algo.Revisit.{revisit_condition}

abbrev pub drop {ℓ} : {A : Type ℓ} → ℕ → List A → List A
drop zero xs = xs
drop (suc n) [] = []
drop (suc n) (x ∷ xs) = drop n xs

-- What the search for a blocked receive ends with.
pub data Reschedule {ℓ} (V : Type ℓ) : Type ℓ where
  no_reschedule : Reschedule V
  ready : ExplorationGraph V → Reschedule V
  stop_requested : Reschedule V

module _ {ℓ} {V : Type ℓ} where
  -- Whether an event stays in the graph of a revisit.
  pub stays : ExplorationGraph V → ℕ → ℕ → ℕ → Result Bool
  stays g recv_id send_id ep =
      if ep == recv_id || ep == send_id
      then ok true
      else (inserted_before_or_equal g ep recv_id >>= λ earlier.
          if earlier then ok true else porf_contains g ep send_id)

  -- The scan for Deleted: the mask of the events from `ep` on that stay, `left` of them to go, or none
  -- if some event that would go fails its condition.
  pub keep_from :
      Comparison V
      → ExplorationGraph V
      → CommunicationModel
      → ℕ
      → ℕ
      → ℕ
      → ℕ
      → Result (Option (List Bool))
  unfolding stays
  keep_from values g communication_model recv_id send_id zero ep = ok (some [])
  keep_from values g communication_model recv_id send_id (suc left) ep = do
    kept ← stays g recv_id send_id ep
    passes ← if kept then ok true else revisit_condition values g ep send_id communication_model
    elim passes [
      | false ↦ ok none
      | true ↦ keep_from values g communication_model recv_id send_id left (suc ep) >>= λ rest.
          ok (elim rest [ none ↦ none | some mask ↦ some (kept ∷ mask) ])
    ]

  -- The graph of a revisit: what stays, with the receive bound to the send. None if one of the two is gone.
  pub revisited : ExplorationGraph V → List Bool → ℕ → ℕ → Result (Option (ExplorationGraph V))
  unfolding position_of
  revisited g mask recv_id send_id = do
    restricted ← restrict_from_keep_mask g mask
    elim (position_of recv_id (kept_from 0 mask)) [
      | none ↦ ok none
      | some new_recv ↦ elim (position_of send_id (kept_from 0 mask)) [
        | none ↦ ok none
        | some new_send ↦
            rebind_rf_preserving_known_acyclicity restricted new_recv new_send >>= λ child.
            ok (some child)
      ]
    ]

  -- One receive: the child that it gives, if it gives one.
  pub revisit_of :
      Comparison V
      → ExplorationGraph V
      → ℕ
      → V
      → CommunicationModel
      → ℕ
      → Result (Option (ExplorationGraph V))
  unfolding keep_from revisited
  revisit_of values g send_id sent communication_model recv_id = do
    e ← event g.graph recv_id
    let accepted : Bool = elim (as_receive e) [ none ↦ false | some label ↦ accepts label sent ]
    ordered ← if accepted then porf_contains g recv_id send_id else ok true
    passes ←
        if ordered then ok false else revisit_condition values g recv_id send_id communication_model
    elim passes [
      | false ↦ ok none
      | true ↦
          keep_from values g communication_model recv_id send_id (event_count g) 0 >>= λ keep_mask.
          elim keep_mask [ none ↦ ok none | some mask ↦ revisited g mask recv_id send_id ]
    ]

  -- The loop over the receives that are left, the first of them at `index`; with the index to go on at.
  unfoldable pub revisit_from :
      Comparison V
      → ExplorationGraph V
      → ℕ
      → V
      → CommunicationModel
      → ℕ
      → List ℕ
      → Result (ℕ × Option (ExplorationGraph V))
  unfolding revisit_of
  revisit_from values g send_id sent communication_model index [] = ok (index, none)
  revisit_from values g send_id sent communication_model index (recv_id ∷ receives) =
      revisit_of values g send_id sent communication_model recv_id >>= λ child. elim child [
        | some graph ↦ ok (suc index, some graph)
        | none ↦ revisit_from values g send_id sent communication_model (suc index) receives
      ]

  -- An event that is no send gives no child, and the index 0.
  unfoldable pub next_backward_revisit_child :
      Comparison V
      → ExplorationGraph V
      → ℕ
      → CommunicationModel
      → List ℕ
      → ℕ
      → Result (ℕ × Option (ExplorationGraph V))
  unfolding revisit_from
  next_backward_revisit_child values g send_id communication_model receives start = do
    e ← event g.graph send_id
    elim (as_send e) [
      | none ↦ ok (0, none)
      | some s ↦
          revisit_from values g send_id s.value communication_model
            (if ltb start (length receives) then start else length receives) (drop start receives)
    ]

  -- What a thread that waited must give when it is asked again.
  unfoldable pub asked_again : ℕ → Option (EventLabel V) → Result (ReceiveLabel V)
  asked_again t none = throw (user_code_error thread_function (some t))
  asked_again t (some (receive r)) =
      if is_nonblocking r then throw (user_code_error thread_function (some t)) else ok r
  asked_again t (some (send m)) = throw (user_code_error thread_function (some t))
  asked_again t (some (nondet c)) = throw (user_code_error thread_function (some t))
  asked_again t (some block) = throw (user_code_error thread_function (some t))
  asked_again t (some (error m)) = throw (user_code_error thread_function (some t))

  -- The id of the last event of a thread if this is a Block event.
  unfoldable pub trailing_block : ExplorationGraph V → ℕ → Result (Option ℕ)
  trailing_block g t = elim (last_event_id g t) [
    | none ↦ ok none
    | some id ↦ event g.graph id >>= λ e. ok (if is_block e then some id else none)
  ]

  -- The graph without event `id`.
  unfoldable pub without_event : ExplorationGraph V → ℕ → Result (ExplorationGraph V)
  without_event g id = restrict_from_keep_mask g (set (replicate (event_count g) true) id false)

  -- `stop` is what `executor.stop_requested()` answers, which nothing in the loop changes.
  unfoldable pub find_blocked_receive_reschedule_child :
      ThreadMap (ThreadFunction V) → ExplorationGraph V → Bool → List ℕ → Result (Reschedule V)
  unfolding asked_again trailing_block without_event
  find_blocked_receive_reschedule_child program g stop [] = ok no_reschedule
  find_blocked_receive_reschedule_child program g stop (t ∷ ts) =
      let rest = find_blocked_receive_reschedule_child program g stop ts in
      if stop
      then ok stop_requested
      else (trailing_block g t >>= λ last. elim last [
        | none ↦ rest
        | some id ↦ ask_thread program g t (thread_event_count g t - 1) >>= λ answer.
            asked_again t answer >>= λ label.
            if has_compatible_unread_send g t label
            then (without_event g id >>= λ child. ok (ready child))
            else rest
      ])
