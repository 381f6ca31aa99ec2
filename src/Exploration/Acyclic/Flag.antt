-- ===== src/Exploration/Acyclic/Flag.antt =====
-- include/dpor/model/exploration_graph.hpp, set_reads_from_source: the known-acyclic flag along
-- its steps.
use cpp_dpor.Prelude.{
  ℕ, ◌≡◌, inl, inr, refl, sym, ap, ◌∙◌, true, ◌∷◌, Option, some, none, arith, Option-cases,
}
use mathlib.Core.Path.{subst}
use cpp_dpor.Errors.{ok, ◌>>=◌, >>=-eq-ok, ok-injective}
use cpp_dpor.Event.{is_send}
use cpp_dpor.Graph.{ExecutionGraph}
use cpp_dpor.Graph
use cpp_dpor.Graph.ReadsFrom.{ReadsFromSource, from_send, bottom}
use cpp_dpor.Exploration.{
  ExplorationGraph, tests, event_at, set_reads_from_source, update_send_reader_state, drop_source,
  take_source, update_acyclicity_after_rf_assignment, current_reads_from_source,
}
use cpp_dpor.Exploration.Acyclic.Edges.{IsSource, no_send, a_send}

module _ {ℓ} {V : Type ℓ} where
  -- What the flag's soundness reads of a graph stays as it was.
  record SameFlags (g h : ExplorationGraph V) : Type ℓ where
    same_graph : h.graph ≡ g.graph
    same_flag : h.known_acyclic ≡ g.known_acyclic
    same_pending : h.pending_fresh_receive_id ≡ g.pending_fresh_receive_id

  SameFlags-of : {g h : ExplorationGraph V} → g ≡ h → SameFlags g h
  SameFlags-of {g} same =
      subst (SameFlags g) same (record { same_graph = refl; same_flag = refl; same_pending = refl })

  drop_source-flags :
      (g h : ExplorationGraph V) (s : Option ReadsFromSource)
      → drop_source g s ≡ ok h
      → SameFlags g h
  unfolding drop_source
  drop_source-flags g h none e = SameFlags-of (ok-injective e)
  drop_source-flags g h (some bottom) e = SameFlags-of (ok-injective e)
  drop_source-flags g h (some (from_send a)) e = record {
    same_graph = ground arith;
    same_flag = ground arith;
    same_pending = ground arith;
  }

  take_source-flags :
      (g : ExplorationGraph V) (s : Option ReadsFromSource) → SameFlags g (take_source g s)
  unfolding take_source
  take_source-flags g none = record { same_graph = refl; same_flag = refl; same_pending = refl }
  take_source-flags g (some bottom) = record {
    same_graph = refl;
    same_flag = refl;
    same_pending = refl;
  }
  take_source-flags g (some (from_send a)) = record {
    same_graph = ground arith;
    same_flag = ground arith;
    same_pending = ground arith;
  }

  -- The state before the last step of an assignment: the new reads and the flag of before.
  pub record IsAssigned (g : ExplorationGraph V) (id : ℕ) (s : ReadsFromSource)
      (h : ExplorationGraph V) : Type ℓ where
    pub new_graph : h.graph ≡ Graph.set_reads_from_source g.graph id s
    pub old_flag : h.known_acyclic ≡ g.known_acyclic
    pub old_pending : h.pending_fresh_receive_id ≡ g.pending_fresh_receive_id

  pub set_reads_from_source-IsAssigned :
      (g g' : ExplorationGraph V) (id : ℕ) (s : ReadsFromSource)
      → set_reads_from_source g id s ≡ ok g'
      → (h : ExplorationGraph V) × IsAssigned g id s h
        × (g' ≡ update_acyclicity_after_rf_assignment h id s)
  unfolding set_reads_from_source update_send_reader_state
  set_reads_from_source-IsAssigned g g' id s ran =
      let previous = current_reads_from_source g id in
      let g1 : ExplorationGraph V = record g {
        graph = Graph.set_reads_from_source g.graph id s;
        rf_undo_log = record { receive_id = id; previous_source = previous } ∷ g.rf_undo_log;
      } in
      let (h, e, f) =
        >>=-eq-ok (drop_source g1 previous >>= λ k. ok (take_source k (some s)))
          (λ k. ok (update_acyclicity_after_rf_assignment k id s)) ran in
      let (k, e', f') = >>=-eq-ok (drop_source g1 previous) (λ k. ok (take_source k (some s))) e in
      let dropped = drop_source-flags g1 k previous e' in
      let taken = take_source-flags k (some s) in
      let is_h = ok-injective f' in
      (
        h,
        record {
          new_graph =
              ap (λ (x : ExplorationGraph V). x.graph) (sym is_h)
              ∙ (taken.same_graph ∙ dropped.same_graph);
          old_flag =
              ap (λ (x : ExplorationGraph V). x.known_acyclic) (sym is_h)
              ∙ (taken.same_flag ∙ dropped.same_flag);
          old_pending =
              ap (λ (x : ExplorationGraph V). x.pending_fresh_receive_id) (sym is_h)
              ∙ (taken.same_pending ∙ dropped.same_pending);
        },
        sym (ok-injective f),
      )

  -- When the flag stays up, the receive is the pending one and the source is one that it may take.
  pub data Kept (h : ExplorationGraph V) (id : ℕ) (s : ReadsFromSource) : Type ℓ where
    kept :
        h.known_acyclic ≡ true
        → h.pending_fresh_receive_id ≡ some id
        → IsSource h.graph s
        → Kept h id s

  IsSource-of_test :
      (h : ExplorationGraph V) (a : ℕ) → tests is_send h a ≡ true → IsSource h.graph (from_send a)
  IsSource-of_test h a e = elim (Option-cases (event_at h a)) [
    | inl absent ↦ cc (rw (absent, tests) at e)
    | inr (d, at) ↦ a_send a d refl at (rw (at, tests) at e)
  ]

  pub flag-Kept :
      (h : ExplorationGraph V) (id : ℕ) (s : ReadsFromSource)
      → (update_acyclicity_after_rf_assignment h id s).known_acyclic ≡ true
      → Kept h id s
  unfolding update_acyclicity_after_rf_assignment
  flag-Kept h id bottom e = kept (ground arith) (ground arith) (no_send refl)
  flag-Kept h id (from_send a) e =
      kept (ground arith) (ground arith) (IsSource-of_test h a (ground arith))

  pub update-keeps :
      (h : ExplorationGraph V) (id : ℕ) (s : ReadsFromSource)
      → ((update_acyclicity_after_rf_assignment h id s).graph ≡ h.graph)
        × ((update_acyclicity_after_rf_assignment h id s).pending_fresh_receive_id ≡ none)
  unfolding update_acyclicity_after_rf_assignment
  update-keeps h id bottom = (ground arith, ground arith)
  update-keeps h id (from_send a) = (ground arith, ground arith)
