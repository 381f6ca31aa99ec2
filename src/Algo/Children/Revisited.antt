-- ===== src/Algo/Children/Revisited.antt =====
-- include/dpor/algo/dpor.hpp, next_backward_revisit_child: what a child is.
use cpp_dpor.Prelude.{
  ℕ, zero, suc, ◌<◌, ◌≡◌, inl, inr, ap, ◌∙◌, Bool, true, false, List, [], ◌∷◌, Option, some, none,
  arith, if◌then◌else◌, Bool-cases, Option-cases, get_or, elem,
}
use mathlib.Core.Path.{subst}
use cpp_dpor.Errors.{Result, ok, ◌>>=◌, >>=-eq-ok, ok-injective}
use cpp_dpor.Event.{
  CommunicationModel, Event, ReceiveLabel, SendLabel, as_receive, as_send, accepts,
}
use cpp_dpor.Graph.{event}
use cpp_dpor.Exploration.{ExplorationGraph, event_count}
use cpp_dpor.Exploration.Copies.{rebind_rf_preserving_known_acyclicity}
use cpp_dpor.Exploration.Porf.{porf_contains}
use cpp_dpor.Exploration.Restrict.{restrict_from_keep_mask, kept_from}
use cpp_dpor.Algo.Config.{Comparison}
use cpp_dpor.Algo.Tiebreaker.{position_of}
use cpp_dpor.Algo.Revisit.{revisit_condition}
use cpp_dpor.Algo.Children.{
  drop, keep_from, revisited, revisit_of, revisit_from, next_backward_revisit_child,
}
use cpp_dpor.Algo.Children.Deleted.{IsDecided, keep_from-IsDecided}

elem-drop : (x n : ℕ) (xs : List ℕ) → elem x (drop n xs) ≡ true → elem x xs ≡ true
elem-drop x zero xs h = h
elem-drop x (suc n) [] h = h
elem-drop x (suc n) (y ∷ ys) h = ground (arith, elem-drop x n ys h)

module _ {ℓ} {V : Type ℓ} (values : Comparison V) (g : ExplorationGraph V)
    (model : CommunicationModel) where
  -- The graph of a revisit is the restriction to what stays, with the receive bound to the send.
  pub record IsRevisit (sent : V) (send_id recv_id : ℕ) (child : ExplorationGraph V) : Type ℓ where
    pub receiver : Event V
    pub label : ReceiveLabel V
    pub receives : event g.graph recv_id ≡ ok receiver
    pub is_label : as_receive receiver ≡ some label
    pub accepting : accepts label sent ≡ true
    pub concurrent : porf_contains g recv_id send_id ≡ ok false
    pub passes : revisit_condition values g recv_id send_id model ≡ ok true
    pub mask : List Bool
    pub decides :
        (id : ℕ)
        → id < event_count g
        → IsDecided values g model recv_id send_id id (get_or mask id false)
    pub restricted : ExplorationGraph V
    pub restricts : restrict_from_keep_mask g mask ≡ ok restricted
    pub new_recv : ℕ
    pub new_send : ℕ
    pub recv_moves : position_of recv_id (kept_from 0 mask) ≡ some new_recv
    pub send_moves : position_of send_id (kept_from 0 mask) ≡ some new_send
    pub binds : rebind_rf_preserving_known_acyclicity restricted new_recv new_send ≡ ok child

  revisited-eq-some :
      (mask : List Bool) (recv_id send_id : ℕ) (child : ExplorationGraph V)
      → revisited g mask recv_id send_id ≡ ok (some child)
      → (restricted : ExplorationGraph V) × (new_recv : ℕ) × (new_send : ℕ)
        × (restrict_from_keep_mask g mask ≡ ok restricted)
        × (position_of recv_id (kept_from 0 mask) ≡ some new_recv)
        × (position_of send_id (kept_from 0 mask) ≡ some new_send)
        × (rebind_rf_preserving_known_acyclicity restricted new_recv new_send ≡ ok child)
  unfolding revisited
  revisited-eq-some mask recv_id send_id child ran =
      let (restricted, e, f) = >>=-eq-ok (restrict_from_keep_mask g mask) _ ran in
      elim (Option-cases (position_of recv_id (kept_from 0 mask))) [
        | inl gone ↦ absurd (cc (ok-injective (rw gone at f)))
        | inr (new_recv, recv_moves) ↦
            let found = rw recv_moves at f in
            elim (Option-cases (position_of send_id (kept_from 0 mask))) [
              | inl gone ↦ absurd (cc (ok-injective (rw gone at found)))
              | inr (new_send, send_moves) ↦
                  let (bound, e1, f1) =
                    >>=-eq-ok (rebind_rf_preserving_known_acyclicity restricted new_recv new_send) _
                      (rw send_moves at found) in
                  let is_child : bound ≡ child = cc (ok-injective f1) in
                  (
                    restricted,
                    new_recv,
                    new_send,
                    e,
                    recv_moves,
                    send_moves,
                    e1 ∙ ap (λ (x : ExplorationGraph V). ok x) is_child,
                  )
            ]
      ]

  -- What revisit_of does for a receive that accepts the value.
  abbrev accepted : ℕ → ℕ → Result (Option (ExplorationGraph V))
  accepted send_id recv_id = do
    ordered ← porf_contains g recv_id send_id
    passes ← if ordered then ok false else revisit_condition values g recv_id send_id model
    elim passes [
      | false ↦ ok none
      | true ↦ keep_from values g model recv_id send_id (event_count g) 0 >>= λ keep_mask.
          elim keep_mask [ none ↦ ok none | some mask ↦ revisited g mask recv_id send_id ]
    ]

  accepted-eq-some :
      (send_id recv_id : ℕ) (child : ExplorationGraph V)
      → accepted send_id recv_id ≡ ok (some child)
      → (porf_contains g recv_id send_id ≡ ok false)
        × (revisit_condition values g recv_id send_id model ≡ ok true)
        × (mask : List Bool) × (keep_from values g model recv_id send_id (event_count g) 0
            ≡ ok (some mask))
        × (revisited g mask recv_id send_id ≡ ok (some child))
  accepted-eq-some send_id recv_id child ran =
      let (ordered, e, f) = >>=-eq-ok (porf_contains g recv_id send_id) _ ran in
      elim (Bool-cases ordered) [
        | inl before ↦ absurd (cc (ok-injective (rw before at f)))
        | inr apart ↦
            let (passes, e1, f1) =
              >>=-eq-ok (revisit_condition values g recv_id send_id model) _ (rw apart at f) in
            elim (Bool-cases passes) [
              | inr failed ↦ absurd (cc (ok-injective (rw failed at f1)))
              | inl passed ↦
                  let (kept, e2, f2) =
                    >>=-eq-ok (keep_from values g model recv_id send_id (event_count g) 0) _
                      (rw passed at f1) in
                  elim (Option-cases kept) [
                    | inl gone ↦ absurd (cc (ok-injective (rw gone at f2)))
                    | inr (mask, is_mask) ↦ (
                      e ∙ ap (λ (b : Bool). ok b) apart,
                      e1 ∙ ap (λ (b : Bool). ok b) passed,
                      mask,
                      e2 ∙ ap (λ (m : Option (List Bool)). ok m) is_mask,
                      rw is_mask at f2,
                    )
                  ]
            ]
      ]

  accepted-IsRevisit :
      (sent : V) (send_id recv_id : ℕ) (child : ExplorationGraph V) (receiver : Event V)
      (label : ReceiveLabel V)
      → event g.graph recv_id ≡ ok receiver
      → as_receive receiver ≡ some label
      → accepts label sent ≡ true
      → accepted send_id recv_id ≡ ok (some child)
      → IsRevisit sent send_id recv_id child
  accepted-IsRevisit sent send_id recv_id child receiver label receives is_label accepting ran =
      let (concurrent, passes, mask, scanned, made) = accepted-eq-some send_id recv_id child ran in
      let (restricted, new_recv, new_send, restricts, recv_moves, send_moves, binds) =
        revisited-eq-some mask recv_id send_id child made in
      record {
        receiver = receiver;
        label = label;
        receives = receives;
        is_label = is_label;
        accepting = accepting;
        concurrent = concurrent;
        passes = passes;
        mask = mask;
        decides = λ id below.
            subst (λ (n : ℕ). IsDecided values g model recv_id send_id n (get_or mask id false))
              (omega arith)
              (keep_from-IsDecided values g model recv_id send_id (event_count g) 0 mask scanned id
                below);
        restricted = restricted;
        restricts = restricts;
        new_recv = new_recv;
        new_send = new_send;
        recv_moves = recv_moves;
        send_moves = send_moves;
        binds = binds;
      }

  revisit_of-IsRevisit :
      (sent : V) (send_id recv_id : ℕ) (child : ExplorationGraph V)
      → revisit_of values g send_id sent model recv_id ≡ ok (some child)
      → IsRevisit sent send_id recv_id child
  unfolding revisit_of
  revisit_of-IsRevisit sent send_id recv_id child ran =
      let (e, receives, f) = >>=-eq-ok (event g.graph recv_id) _ ran in
      elim (Option-cases (as_receive e)) [
        | inl other ↦ absurd (cc (ok-injective (rw other at f)))
        | inr (label, is_label) ↦
            let asked = rw is_label at f in
            elim (Bool-cases (accepts label sent)) [
              | inl accepting ↦
                  accepted-IsRevisit sent send_id recv_id child e label receives is_label accepting
                    (rw accepting at asked)
              | inr refusing ↦ absurd (cc (ok-injective (rw refusing at asked)))
            ]
      ]

  revisit_from-IsRevisit :
      (sent : V) (send_id index : ℕ) (receives : List ℕ) (next : ℕ × Option (ExplorationGraph V))
      (child : ExplorationGraph V)
      → revisit_from values g send_id sent model index receives ≡ ok next
      → next.1 ≡ some child
      → (recv_id : ℕ) × (elem recv_id receives ≡ true) × IsRevisit sent send_id recv_id child
  unfolding revisit_from
  revisit_from-IsRevisit sent send_id index [] next child ran found =
      absurd (cc (ap (λ (x : ℕ × Option (ExplorationGraph V)). x.1) (ok-injective ran)))
  revisit_from-IsRevisit sent send_id index (recv_id ∷ receives) next child ran found =
      let (made, e, f) = >>=-eq-ok (revisit_of values g send_id sent model recv_id) _ ran in
      elim (Option-cases made) [
        | inl skipped ↦
            let (r, among, is_revisit) =
              revisit_from-IsRevisit sent send_id (suc index) receives next child (rw skipped at f)
                found in
            (r, ground (arith, among), is_revisit)
        | inr (graph, is_made) ↦
            let same : graph ≡ child = cc (
              ap (λ (x : ℕ × Option (ExplorationGraph V)). x.1) (ok-injective (rw is_made at f))) in
            (
              recv_id,
              ground arith,
              revisit_of-IsRevisit sent send_id recv_id child (
                  e
                  ∙ ap (λ (m : Option (ExplorationGraph V)). ok m) is_made
                  ∙ ap (λ (x : ExplorationGraph V). ok (some x)) same),
            )
      ]

  -- If next_backward_revisit_child gives a child, then the event is a send, and the child comes
  -- from one of the receives: it accepts the value of the send, is not before it in program order
  -- and reads-from, and passes the condition of a revisit. The child is the restriction to a mask,
  -- with the receive bound to the send under their new ids. Each event that the mask keeps is the
  -- receive, the send, inserted no later than the receive or before the send in program order and
  -- reads-from; each that it drops is none of these and passes the condition.
  pub next_backward_revisit_child-IsRevisit :
      (send_id : ℕ) (receives : List ℕ) (start : ℕ) (next : ℕ × Option (ExplorationGraph V))
      (child : ExplorationGraph V)
      → next_backward_revisit_child values g send_id model receives start ≡ ok next
      → next.1 ≡ some child
      → (sender : Event V) × (s : SendLabel V) × (event g.graph send_id ≡ ok sender)
        × (as_send sender ≡ some s)
        × (recv_id : ℕ) × (elem recv_id receives ≡ true)
        × IsRevisit s.value send_id recv_id child
  unfolding next_backward_revisit_child
  next_backward_revisit_child-IsRevisit send_id receives start next child ran found =
      let (e, read, f) = >>=-eq-ok (event g.graph send_id) _ ran in
      elim (Option-cases (as_send e)) [
        | inl other ↦
            absurd (
              cc (ap (λ (x : ℕ × Option (ExplorationGraph V)). x.1) (ok-injective (rw other at f))))
        | inr (s, is_send) ↦
            let (recv_id, among, is_revisit) =
              revisit_from-IsRevisit s.value send_id _ (drop start receives) next child
                (rw is_send at f) found in
            (e, s, read, is_send, recv_id, elem-drop recv_id start receives among, is_revisit)
      ]
