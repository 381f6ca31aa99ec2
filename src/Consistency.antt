-- ===== src/Consistency.antt =====
-- include/dpor/model/consistency.hpp: what is checked of a graph. An issue is its code; the texts of the
-- messages are left out. `tolerated` says for which receives a missing source is accepted.
pub mod Validate
pub mod Cycle
pub mod Fifo
pub mod Checked
use cpp_dpor.Prelude.{
  ℕ, zero, suc, ◌+◌, ◌-◌, ◌*◌, ◌^◌, ◌≤◌, ◌<◌, max, ◌≡◌, ◌≢◌, ◌↔◌, ◌⊎◌, inl, inr, refl, sym, ap, ◌∙◌,
  Bool, true, false, not, ◌&&◌, ◌||◌, List, [], ◌∷◌, ◌++◌, map, Option, some, none, arith, ltb, leb,
  ◌==◌, if◌then◌else◌, ltb→lt, lt→ltb, ltb-eq-false, ltb-false→le, leb→le, ==_iff, ==_refl, ==→eq,
  Bool-cases, Option-cases, bool_ext, length, get_elem?, get_or, set, replicate, length-append,
  length-set, length-replicate, get_or-replicate, get_or-of_le, get_elem?-of_le, get_elem?-of_lt,
  get_elem?-append_left, get_elem?-append_last, pop_back, back?, pop_back-append, back?-append,
  get_or-set, lt-length_of_get_elem?, get_elem?-concat, grow, get_or-grow, le-length-grow,
  length-grow, put, get_or-put, elem, count, elem-count, count-append, elem-append,
  elem_of_get_elem?, get_elem?_of_elem, All, All-append, All-map,
}
use cpp_dpor.Errors.{Result, ok, throw, ◌>>=◌}
use cpp_dpor.Event.{CommunicationModel, async, fifo_p2p}
use cpp_dpor.Graph.{ExecutionGraph}
use cpp_dpor.Graph.ThreadOrder.{po_relation}
use cpp_dpor.Exploration.{ExplorationGraph, mark_known_acyclic}
use cpp_dpor.Exploration.Porf
use Validate.{IssueCode, causal_cycle, Validation, validate_graph}
use Cycle.{has_causal_cycle}
use Fifo.{fifo_p2p_issues}

-- `ConsistencyResult::is_consistent`
pub is_consistent : List IssueCode → Bool
is_consistent [] = true
is_consistent (code ∷ codes) = false

module _ {ℓ} {V : Type ℓ} where
  pub check_async_execution_graph : ExecutionGraph V → (ℕ → Bool) → Result (List IssueCode)
  check_async_execution_graph g tolerated = do
    let validation = validate_graph g tolerated
    po ← po_relation g
    cyclic ← has_causal_cycle po validation.valid_rf_edges (length g.events)
    ok (if cyclic then validation.issues ++ causal_cycle ∷ [] else validation.issues)

  -- The cycle query is left out for a graph whose flag is up.
  pub find_cycle : ExplorationGraph V → Result Bool
  find_cycle g = if g.known_acyclic then ok false else Porf.has_causal_cycle_without_cache g

  -- The graph comes back with its flag up if nothing is wrong. Which of the two cycle queries runs
  -- depends on the memo, and they answer alike.
  pub check_async_exploration_graph :
      ExplorationGraph V → (ℕ → Bool) → Result (ExplorationGraph V × List IssueCode)
  unfolding check_async_execution_graph find_cycle is_consistent
  check_async_exploration_graph g tolerated =
      let validation = validate_graph g.graph tolerated in
      if validation.cycle_query_safe
      then (find_cycle g >>= λ cyclic. ok (
          if cyclic then (g, validation.issues ++ causal_cycle ∷ []) else (
            if is_consistent validation.issues then mark_known_acyclic g else g,
            validation.issues,
          )))
      else (check_async_execution_graph g.graph tolerated >>= λ issues. ok (g, issues))

  -- The FIFO clauses are asked of a graph with no issue so far.
  pub with_fifo : CommunicationModel → ExecutionGraph V → List IssueCode → List IssueCode
  unfolding is_consistent
  with_fifo async g issues = issues
  with_fifo fifo_p2p g issues = if is_consistent issues then issues ++ fifo_p2p_issues g else issues

  pub check_execution_graph :
      ExecutionGraph V → CommunicationModel → (ℕ → Bool) → Result (List IssueCode)
  unfolding check_async_execution_graph with_fifo
  check_execution_graph g communication_model tolerated = do
    issues ← check_async_execution_graph g tolerated
    ok (with_fifo communication_model g issues)

  pub check_exploration_graph :
      ExplorationGraph V
      → CommunicationModel
      → (ℕ → Bool)
      → Result (ExplorationGraph V × List IssueCode)
  unfolding check_async_exploration_graph with_fifo
  check_exploration_graph g communication_model tolerated = do
    checked ← check_async_exploration_graph g tolerated
    ok (checked.0, with_fifo communication_model checked.0.graph checked.1)

  -- `ConsistencyCheckerT::check`, where no receive may lack its source.
  pub check : CommunicationModel → ExecutionGraph V → Result (List IssueCode)
  unfolding check_execution_graph
  check communication_model g = check_execution_graph g communication_model (λ id. false)

  unfoldable pub check_exploring :
      CommunicationModel → ExplorationGraph V → Result (ExplorationGraph V × List IssueCode)
  unfolding check_exploration_graph
  check_exploring communication_model g =
      check_exploration_graph g communication_model (λ id. false)
