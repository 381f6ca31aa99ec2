-- ===== src/Exploration/Copies.antt =====
-- include/dpor/model/exploration_graph.hpp, ExplorationGraphT: copies with another source of a receive
-- or another value of a choice, and the rebinding in place. The copy is the same value.
use cpp_dpor.Prelude.{
  ℕ, Bool, true, false, not, ◌&&◌, ◌||◌, List, [], ◌∷◌, some, none, if◌then◌else◌, get_elem?, set,
}
use cpp_dpor.Errors.{Result, ok, throw, throw_if, precondition_error, ◌>>◌, ◌>>=◌}
use cpp_dpor.Event.{nondet, is_receive, is_send, as_nondeterministic_choice}
use cpp_dpor.Graph.{ExecutionGraph}
use cpp_dpor.Graph
use cpp_dpor.Graph.ReadsFrom.{ReadsFromSource, from_send, bottom}
use cpp_dpor.Exploration.{
  ExplorationGraph, tests, set_reads_from_source, update_send_reader_state,
  current_reads_from_source, mark_known_acyclic, invalidate_known_acyclicity,
  clear_worker_local_history,
}

abbrev is_nil {κ} : {A : Type κ} → List A → Bool
is_nil [] = true
is_nil (x ∷ xs) = false

module _ {ℓ} {V : Type ℓ} where
  pub copy_with_rf_source :
      ExplorationGraph V → ℕ → ReadsFromSource → Bool → Result (ExplorationGraph V)
  unfolding set_reads_from_source mark_known_acyclic invalidate_known_acyclicity
      clear_worker_local_history
  copy_with_rf_source g recv source preserve = do
    copy ← set_reads_from_source g recv source
    let marked = if preserve then mark_known_acyclic copy else invalidate_known_acyclicity copy
    ok (clear_worker_local_history marked)

  pub with_rf : ExplorationGraph V → ℕ → ℕ → Result (ExplorationGraph V)
  unfolding copy_with_rf_source
  with_rf g recv send_id = copy_with_rf_source g recv (from_send send_id) false

  -- The condition under which a rebinding keeps the flag.
  pub may_preserve : ExplorationGraph V → ℕ → ℕ → Bool
  may_preserve g recv send_id =
      g.known_acyclic && (tests is_receive g recv && tests is_send g send_id)

  pub with_rf_preserving_known_acyclicity : ExplorationGraph V → ℕ → ℕ → Result (ExplorationGraph V)
  unfolding copy_with_rf_source may_preserve
  with_rf_preserving_known_acyclicity g recv send_id =
      copy_with_rf_source g recv (from_send send_id) (may_preserve g recv send_id)

  pub with_rf_source : ExplorationGraph V → ℕ → ReadsFromSource → Result (ExplorationGraph V)
  unfolding copy_with_rf_source
  with_rf_source g recv source = copy_with_rf_source g recv source false

  pub with_bottom_rf : ExplorationGraph V → ℕ → Result (ExplorationGraph V)
  unfolding copy_with_rf_source
  with_bottom_rf g recv =
      copy_with_rf_source g recv bottom (g.known_acyclic && tests is_receive g recv)

  pub rebind_rf : ExplorationGraph V → ℕ → ℕ → Bool → Result (ExplorationGraph V)
  unfolding current_reads_from_source update_send_reader_state mark_known_acyclic
      invalidate_known_acyclicity
  rebind_rf g recv send_id preserve = do
    throw_if (not (is_nil g.event_undo_log) || not (is_nil g.rf_undo_log)) precondition_error
    let previous = current_reads_from_source g recv
    g' ←
        update_send_reader_state
          (record g { graph = Graph.set_reads_from_source g.graph recv (from_send send_id) })
          previous (some (from_send send_id))
    ok (if preserve then mark_known_acyclic g' else invalidate_known_acyclicity g')

  unfoldable pub rebind_rf_preserving_known_acyclicity :
      ExplorationGraph V → ℕ → ℕ → Result (ExplorationGraph V)
  unfolding rebind_rf may_preserve
  rebind_rf_preserving_known_acyclicity g recv send_id =
      rebind_rf g recv send_id (may_preserve g recv send_id)

  pub with_nd_value : ExplorationGraph V → ℕ → V → Result (ExplorationGraph V)
  with_nd_value g id value = elim (get_elem? g.graph.events id) [
    | none ↦ throw precondition_error
    | some e ↦ elim (as_nondeterministic_choice e) [
      | none ↦ throw precondition_error
      | some nd ↦
          let e' = record e { label = nondet (record nd { value = value }) } in
          ok (record g { graph = record g.graph { events = set g.graph.events id e' } })
    ]
  ]
