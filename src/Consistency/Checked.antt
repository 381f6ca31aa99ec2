-- ===== src/Consistency/Checked.antt =====
-- include/dpor/model/consistency.hpp: what a check leaves of the graph that it is given.
use cpp_dpor.Prelude.{ℕ, ◌≡◌, inl, inr, sym, ap, ◌∙◌, Bool, false, List, arith, Bool-cases}
use cpp_dpor.Errors.{ok, >>=-eq-ok, ok-injective}
use cpp_dpor.Event.{CommunicationModel}
use cpp_dpor.Exploration.{ExplorationGraph, mark_known_acyclic}
use cpp_dpor.Consistency.Validate.{IssueCode, validate_graph}
use cpp_dpor.Consistency.{
  find_cycle, check_async_execution_graph, check_async_exploration_graph, check_exploring,
}

module _ {ℓ} {V : Type ℓ} where
  check_async-graph :
      (g : ExplorationGraph V) (tolerated : ℕ → Bool) (r : ExplorationGraph V × List IssueCode)
      → check_async_exploration_graph g tolerated ≡ ok r
      → r.0.graph ≡ g.graph
  unfolding check_async_exploration_graph mark_known_acyclic
  check_async-graph g tolerated r ran =
      elim (Bool-cases (validate_graph g.graph tolerated).cycle_query_safe) [
        | inl safe ↦
            let (cyclic, e, f) = >>=-eq-ok (find_cycle g) _ (rw safe at ran) in
            ground (arith, ok-injective f)
        | inr unsafe ↦
            let (issues, e, f) =
              >>=-eq-ok (check_async_execution_graph g.graph tolerated) _ (rw unsafe at ran) in
            ap (λ (x : ExplorationGraph V × List IssueCode). x.0.graph) (sym (ok-injective f))
      ]

  pub check_exploring-graph :
      (model : CommunicationModel) (g : ExplorationGraph V)
      (r : ExplorationGraph V × List IssueCode)
      → check_exploring model g ≡ ok r
      → r.0.graph ≡ g.graph
  unfolding check_exploring
  check_exploring-graph model g r ran =
      let (checked, e, f) = >>=-eq-ok (check_async_exploration_graph g (λ id. false)) _ ran in
      ap (λ (x : ExplorationGraph V × List IssueCode). x.0.graph) (sym (ok-injective f))
      ∙ check_async-graph g (λ id. false) checked e
