-- ===== src/Algo/Children/Deleted.antt =====
-- include/dpor/algo/dpor.hpp, next_backward_revisit_child: what a child keeps of the graph.
use cpp_dpor.Prelude.{
  ℕ, zero, suc, ◌+◌, ◌<◌, ◌≡◌, ◌≢◌, ◌⊎◌, inl, inr, ap, ◌∙◌, Bool, true, false, ◌||◌, List, ◌∷◌,
  Option, some, arith, ◌==◌, if◌then◌else◌, ==→eq, Bool-cases, Option-cases, get_or,
}
use mathlib.Core.Path.{subst}
use cpp_dpor.Errors.{ok, >>=-eq-ok, ok-injective}
use cpp_dpor.Event.{CommunicationModel}
use cpp_dpor.Exploration.{ExplorationGraph}
use cpp_dpor.Exploration.Queries.{inserted_before_or_equal}
use cpp_dpor.Exploration.Porf.{porf_contains}
use cpp_dpor.Algo.Config.{Comparison}
use cpp_dpor.Algo.Revisit.{revisit_condition}
use cpp_dpor.Algo.Children.{stays, keep_from}

module _ {ℓ} {V : Type ℓ} (values : Comparison V) (g : ExplorationGraph V)
    (model : CommunicationModel) where
  -- An event that stays is the receive, the send, inserted no later than the receive or before the
  -- send in program order and reads-from.
  pub record Stays (recv_id send_id ep : ℕ) : Type 0 where
    pub because :
        (ep ≡ recv_id)
        ⊎ ((ep ≡ send_id)
            ⊎ ((inserted_before_or_equal g ep recv_id ≡ ok true)
                ⊎ (porf_contains g ep send_id ≡ ok true)))

  -- An event that goes is none of these, and passes the condition of a revisit.
  pub record Goes (recv_id send_id ep : ℕ) : Type 0 where
    pub no_receive : ep ≢ recv_id
    pub no_send : ep ≢ send_id
    pub later : inserted_before_or_equal g ep recv_id ≡ ok false
    pub concurrent : porf_contains g ep send_id ≡ ok false
    pub passes : revisit_condition values g ep send_id model ≡ ok true

  abbrev pub IsDecided : ℕ → ℕ → ℕ → Bool → Type 0
  IsDecided recv_id send_id ep true = Stays recv_id send_id ep
  IsDecided recv_id send_id ep false = Goes recv_id send_id ep

  stays-true :
      (recv_id send_id ep : ℕ) → stays g recv_id send_id ep ≡ ok true → Stays recv_id send_id ep
  unfolding stays
  stays-true recv_id send_id ep ran = elim (Bool-cases (ep == recv_id || ep == send_id)) [
    | inl ends ↦ elim (Bool-cases (ep == recv_id)) [
      | inl is_receive ↦ record { because = inl (omega (arith, ==→eq ep recv_id is_receive)) }
      | inr is_other ↦ record { because = inr (inl (ground arith)) }
    ]
    | inr other ↦
        let (earlier, e, f) =
          >>=-eq-ok (inserted_before_or_equal g ep recv_id) _ (rw other at ran) in
        elim (Bool-cases earlier) [
          | inl before ↦ record { because = inr (inr (inl (e ∙ ap (λ (b : Bool). ok b) before))) }
          | inr after ↦ record { because = inr (inr (inr (rw after at f))) }
        ]
  ]

  stays-false :
      (recv_id send_id ep : ℕ)
      → stays g recv_id send_id ep ≡ ok false
      → revisit_condition values g ep send_id model ≡ ok true
      → Goes recv_id send_id ep
  unfolding stays
  stays-false recv_id send_id ep ran passes = elim (Bool-cases (ep == recv_id || ep == send_id)) [
    | inl ends ↦ absurd (cc (ok-injective (rw ends at ran)))
    | inr other ↦
        let (earlier, e, f) =
          >>=-eq-ok (inserted_before_or_equal g ep recv_id) _ (rw other at ran) in
        elim (Bool-cases earlier) [
          | inl before ↦ absurd (cc (ok-injective (rw before at f)))
          | inr after ↦ record {
            no_receive = ground arith;
            no_send = ground arith;
            later = e ∙ ap (λ (b : Bool). ok b) after;
            concurrent = rw after at f;
            passes = passes;
          }
        ]
  ]

  decided :
      (recv_id send_id ep : ℕ) (kept passes : Bool)
      → stays g recv_id send_id ep ≡ ok kept
      → (if kept then ok true else revisit_condition values g ep send_id model) ≡ ok passes
      → passes ≡ true
      → IsDecided recv_id send_id ep kept
  decided recv_id send_id ep true passes kept condition passed = stays-true recv_id send_id ep kept
  decided recv_id send_id ep false passes kept condition passed =
      stays-false recv_id send_id ep kept (condition ∙ ap (λ (b : Bool). ok b) passed)

  -- One round of the scan.
  keep_from-step :
      (recv_id send_id left ep : ℕ) (mask : List Bool)
      → keep_from values g model recv_id send_id (suc left) ep ≡ ok (some mask)
      → (kept : Bool) × (tail : List Bool) × (kept ∷ tail ≡ mask)
        × IsDecided recv_id send_id ep kept
        × (keep_from values g model recv_id send_id left (suc ep) ≡ ok (some tail))
  unfolding keep_from
  keep_from-step recv_id send_id left ep mask ran =
      let (kept, e, f) = >>=-eq-ok (stays g recv_id send_id ep) _ ran in
      let (passes, e1, f1) =
        >>=-eq-ok (if kept then ok true else revisit_condition values g ep send_id model) _ f in
      elim (Bool-cases passes) [
        | inl passed ↦
            let (rest, e2, f2) =
              >>=-eq-ok (keep_from values g model recv_id send_id left (suc ep)) _
                (rw passed at f1) in
            elim (Option-cases rest) [
              | inl gone ↦ absurd (cc (ok-injective (rw gone at f2)))
              | inr (tail, is_tail) ↦ (
                kept,
                tail,
                cc (ok-injective (rw is_tail at f2)),
                decided recv_id send_id ep kept passes e e1 passed,
                e2 ∙ ap (λ (m : Option (List Bool)). ok m) is_tail,
              )
            ]
        | inr failed ↦ absurd (cc (ok-injective (rw failed at f1)))
      ]

  -- The mask of the scan decides every event that the scan met.
  pub keep_from-IsDecided :
      (recv_id send_id left ep : ℕ) (mask : List Bool)
      → keep_from values g model recv_id send_id left ep ≡ ok (some mask)
      → (i : ℕ) → i < left
      → IsDecided recv_id send_id (ep + i) (get_or mask i false)
  keep_from-IsDecided recv_id send_id zero ep mask ran i below = absurd (omega (arith, below))
  keep_from-IsDecided recv_id send_id (suc left) ep mask ran zero below =
      let (kept, tail, is_mask, this, on) = keep_from-step recv_id send_id left ep mask ran in
      subst (λ (m : List Bool). IsDecided recv_id send_id (ep + 0) (get_or m 0 false)) is_mask
        (subst (λ (n : ℕ). IsDecided recv_id send_id n kept) (omega arith) this)
  keep_from-IsDecided recv_id send_id (suc left) ep mask ran (suc i) below =
      let (kept, tail, is_mask, this, on) = keep_from-step recv_id send_id left ep mask ran in
      subst (λ (m : List Bool). IsDecided recv_id send_id (ep + suc i) (get_or m (suc i) false))
        is_mask
        (subst (λ (n : ℕ). IsDecided recv_id send_id n (get_or tail i false)) (omega arith)
          (keep_from-IsDecided recv_id send_id left (suc ep) tail on i (omega (arith, below))))
