-- ===== src/Algo/Children/Cursor.antt =====
-- include/dpor/algo/dpor.hpp, next_backward_revisit_child: where the next call goes on.
use cpp_dpor.Prelude.{
  ℕ, zero, suc, ◌+◌, ◌-◌, ◌≤◌, ◌<◌, ◌≡◌, inl, inr, ap, List, [], ◌∷◌, Option, some, arith,
  Option-cases, length,
}
use cpp_dpor.Errors.{ok, >>=-eq-ok, ok-injective}
use cpp_dpor.Event.{CommunicationModel, as_send}
use cpp_dpor.Graph.{event}
use cpp_dpor.Exploration.{ExplorationGraph}
use cpp_dpor.Algo.Config.{Comparison}
use cpp_dpor.Algo.Children.{drop, revisit_of, revisit_from, next_backward_revisit_child}

length-drop {ℓ} : {A : Type ℓ} (n : ℕ) (xs : List A) → length (drop n xs) ≡ length xs - n
length-drop zero xs = omega arith
length-drop (suc n) [] = omega arith
length-drop (suc n) (x ∷ xs) = omega (arith, length-drop n xs)

module _ {ℓ} {V : Type ℓ} (values : Comparison V) (g : ExplorationGraph V) (send_id : ℕ) where
  revisit_from-cursor :
      (sent : V) (model : CommunicationModel) (index : ℕ) (receives : List ℕ)
      (next : ℕ × Option (ExplorationGraph V)) (child : ExplorationGraph V)
      → revisit_from values g send_id sent model index receives ≡ ok next
      → next.1 ≡ some child
      → (index < next.0) × (next.0 ≤ index + length receives)
  unfolding revisit_from
  revisit_from-cursor sent model index [] next child ran found =
      cc (ap (λ (x : ℕ × Option (ExplorationGraph V)). x.1) (ok-injective ran))
  revisit_from-cursor sent model index (recv_id ∷ receives) next child ran found =
      let (made, e, f) = >>=-eq-ok (revisit_of values g send_id sent model recv_id) _ ran in
      elim (Option-cases made) [
        | inl skipped ↦
            let (on, within) =
              revisit_from-cursor sent model (suc index) receives next child (rw skipped at f)
                found in
            (omega arith, omega arith)
        | inr (graph, is_made) ↦
            let at : suc index ≡ next.0 =
              ap (λ (x : ℕ × Option (ExplorationGraph V)). x.0) (ok-injective (rw is_made at f)) in
            (omega arith, omega arith)
      ]

  -- A call of next_backward_revisit_child that gives a child goes on behind where it began, and
  -- not beyond the end of the receives.
  pub next_backward_revisit_child-cursor :
      (model : CommunicationModel) (receives : List ℕ) (start : ℕ)
      (next : ℕ × Option (ExplorationGraph V)) (child : ExplorationGraph V)
      → next_backward_revisit_child values g send_id model receives start ≡ ok next
      → next.1 ≡ some child
      → (start < next.0) × (next.0 ≤ length receives)
  unfolding next_backward_revisit_child
  next_backward_revisit_child-cursor model receives start next child ran found =
      let (e, read, f) = >>=-eq-ok (event g.graph send_id) _ ran in
      elim (Option-cases (as_send e)) [
        | inl other ↦
            cc (ap (λ (x : ℕ × Option (ExplorationGraph V)). x.1) (ok-injective (rw other at f)))
        | inr (s, is_send) ↦
            let (on, within) =
              revisit_from-cursor s.value model _ (drop start receives) next child (rw is_send at f)
                found in
            ground (arith, length-drop start receives)
      ]
