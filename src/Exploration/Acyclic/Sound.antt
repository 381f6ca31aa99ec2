-- ===== src/Exploration/Acyclic/Sound.antt =====
-- include/dpor/model/exploration_graph.hpp, add_event and set_reads_from_source: the known-acyclic
-- flag along the runs of both.
use cpp_dpor.Prelude.{
  ℕ, suc, ◌≡◌, inl, inr, refl, sym, ap, ◌∙◌, Bool, true, [], ◌∷◌, ◌++◌, some, arith, Option-cases,
  length, length-append, lt-length_of_get_elem?,
}
use mathlib.Core.Path.{subst}
use cpp_dpor.Errors.{ok, ok-injective}
use cpp_dpor.Event.{Event, EventLabel, is_receive}
use cpp_dpor.Graph.{ExecutionGraph}
use cpp_dpor.Graph
use cpp_dpor.Graph.WellFormed.{IsWellFormed, empty_graph-IsWellFormed}
use cpp_dpor.Graph.WellFormed.Insertion.{inserted, refused, add_event_lem}
use cpp_dpor.Graph.ReadsFrom.{ReadsFromSource, from_send}
use cpp_dpor.Graph.ReadsFrom
use cpp_dpor.Graph.ReadsFrom.Laws.{find-no_reads}
use cpp_dpor.Exploration.{
  ExplorationGraph, empty, tests, event_at, event_count, set_reads_from_source,
  update_acyclicity_after_rf_assignment,
}
use cpp_dpor.Exploration.Insert.{add_event, add_event-entered, entered, entered-flags}
use cpp_dpor.Exploration.Acyclic.{IsAcyclic, Porf, po, rf, IsClosed, IsSound}
use cpp_dpor.Exploration.Acyclic.Edges.{
  IsSource, no_send, a_send, append-IsAcyclic, append-IsClosed, assign-IsAcyclic, assign-IsClosed,
}
use cpp_dpor.Exploration.Acyclic.Flag.{
  set_reads_from_source-IsAssigned, kept, flag-Kept, update-keeps,
}

nothing_read : (id : ℕ) (s : ReadsFromSource) → ReadsFrom.find ReadsFrom.no_reads id ≡ some s → ⊥
nothing_read id s h = absurd (cc (find-no_reads id))

module _ {ℓ} {V : Type ℓ} where
  -- What a successful insertion into the execution graph leaves of the old one.
  pub record Grown (g g' : ExecutionGraph V) (t id : ℕ) : Type ℓ where
    pub well_formed : IsWellFormed g'
    pub added : Event V
    pub at_end : g'.events ≡ g.events ++ added ∷ []
    pub same_reads : g'.reads_from ≡ g.reads_from
    pub last : id ≡ length g.events
    pub of_caller : added.thread ≡ t

  pub add_event-Grown :
      (g g' : ExecutionGraph V) (t id : ℕ) (label : EventLabel V)
      → IsWellFormed g
      → Graph.add_event g t label ≡ ok (g', id)
      → Grown g g' t id
  add_event-Grown g g' t id label v h = elim (add_event_lem g t label v) [
    | inserted k i chosen e w at reads lo new used next ↦
        let same = ok-injective (sym e ∙ h) in
        let graphs = ap (λ (p : ExecutionGraph V × ℕ). p.0) same in
        record {
          well_formed = subst (λ (x : ExecutionGraph V). IsWellFormed x) graphs w;
          added = record { thread = t; index = i; label = label };
          at_end = ap (λ (x : ExecutionGraph V). x.events) (sym graphs) ∙ at;
          same_reads = ap (λ (x : ExecutionGraph V). x.reads_from) (sym graphs) ∙ reads;
          last = ap (λ (p : ExecutionGraph V × ℕ). p.1) (sym same);
          of_caller = refl;
        }
    | refused e why ↦ cc
  ]

  -- A successful add_event keeps a graph well formed and its known-acyclic flag sound: while the
  -- flag is up, program order and reads-from have no cycle and every source is an event, and a
  -- pending receive is the last event.
  pub add_event-IsSound :
      (g g' : ExplorationGraph V) (t id : ℕ) (label : EventLabel V)
      → IsWellFormed g.graph
      → IsSound g
      → add_event g t label ≡ ok (g', id)
      → IsWellFormed g'.graph × IsSound g'
  add_event-IsSound g g' t id label v s h =
      let (graph', ran, is_g') = add_event-entered g g' t id label h in
      let (same, flag, pending) = entered-flags g t id graph' in
      let n = add_event-Grown g.graph graph' t id label v ran in
      let k = entered g t graph' id in
      let count : event_count k ≡ suc id = omega (
        arith,
        ap (λ (x : ExecutionGraph V). length x.events) same,
        ap (length {A = Event V}) n.at_end,
        length-append g.graph.events (n.added ∷ []),
        n.last,
      ) in
      let sound : IsSound k = record {
        acyclic = λ up.
            subst (λ (x : ExecutionGraph V). IsAcyclic (Porf x)) (sym same)
              (append-IsAcyclic g.graph graph' n.added n.at_end n.same_reads
                (s.closed (sym flag ∙ up)) (s.acyclic (sym flag ∙ up)));
        closed = λ up.
            subst (λ (x : ExecutionGraph V). IsClosed x) (sym same)
              (append-IsClosed g.graph graph' n.added n.at_end n.same_reads
                (s.closed (sym flag ∙ up)));
        pending = λ j p. ground (arith, pending, count);
      } in
      (
        subst (λ (x : ExplorationGraph V). IsWellFormed x.graph) (sym is_g')
            (subst (λ (x : ExecutionGraph V). IsWellFormed x) (sym same) n.well_formed),
        subst (λ (x : ExplorationGraph V). IsSound x) (sym is_g') sound,
      )

  set_reads_from_source-IsWellFormed :
      (g : ExecutionGraph V) (id : ℕ) (s : ReadsFromSource)
      → IsWellFormed g
      → IsWellFormed (Graph.set_reads_from_source g id s)
  unfolding Graph.set_reads_from_source
  set_reads_from_source-IsWellFormed g id s v = record {
    sizes = v.sizes;
    threads = v.threads;
    stored = v.stored;
    indexed = v.indexed;
    increasing = v.increasing;
  }

  -- The event that a test accepts.
  tested :
      (p : Event V → Bool) (g : ExplorationGraph V) (id : ℕ)
      → tests p g id ≡ true
      → (e : Event V) × (event_at g id ≡ some e) × (p e ≡ true)
  tested p g id h = elim (Option-cases (event_at g id)) [
    | inl absent ↦ cc (rw (absent, tests) at h)
    | inr (e, at) ↦ (e, at, rw (at, tests) at h)
  ]

  IsSource-of_set :
      (g : ExecutionGraph V) (id : ℕ) (s : ReadsFromSource)
      → IsSource (Graph.set_reads_from_source g id s) s
      → IsSource g s
  unfolding Graph.set_reads_from_source
  IsSource-of_set g id s (no_send e) = no_send e
  IsSource-of_set g id s (a_send a d e at sends) = a_send a d e at sends

  -- A successful set_reads_from_source keeps a graph well formed and its known-acyclic flag sound:
  -- while the flag is up, program order and reads-from have no cycle and every source is an event,
  -- and a pending receive is the last event.
  pub set_reads_from_source-IsSound :
      (g g' : ExplorationGraph V) (id : ℕ) (source : ReadsFromSource)
      → IsWellFormed g.graph
      → IsSound g
      → set_reads_from_source g id source ≡ ok g'
      → IsWellFormed g'.graph × IsSound g'
  set_reads_from_source-IsSound g g' id source v s ran =
      let (h, a, is_g') = set_reads_from_source-IsAssigned g g' id source ran in
      let k = update_acyclicity_after_rf_assignment h id source in
      let (same, pending) = update-keeps h id source in
      let graphs : Graph.set_reads_from_source g.graph id source ≡ k.graph =
        sym a.new_graph ∙ sym same in
      let sound : IsSound k = record {
        acyclic = λ up. elim (flag-Kept h id source up) [
          | kept was_up p from ↦
              let (last, receives) = s.pending id (sym a.old_pending ∙ p) in
              let (e, at, r) = tested is_receive g id receives in
              subst (λ (x : ExecutionGraph V). IsAcyclic (Porf x)) graphs
                (assign-IsAcyclic g.graph id source e last at r
                  (s.acyclic (sym a.old_flag ∙ was_up)))
        ];
        closed = λ up. elim (flag-Kept h id source up) [
          | kept was_up p from ↦
              let (last, receives) = s.pending id (sym a.old_pending ∙ p) in
              let (e, at, r) = tested is_receive g id receives in
              subst (λ (x : ExecutionGraph V). IsClosed x) graphs
                (assign-IsClosed g.graph id source e last at r
                  (IsSource-of_set g.graph id source
                    (subst (λ (x : ExecutionGraph V). IsSource x source) a.new_graph from))
                  (s.closed (sym a.old_flag ∙ was_up)))
        ];
        pending = λ j p. cc;
      } in
      (
        subst (λ (x : ExplorationGraph V). IsWellFormed x.graph) (sym is_g')
            (subst (λ (x : ExecutionGraph V). IsWellFormed x) graphs
              (set_reads_from_source-IsWellFormed g.graph id source v)),
        subst (λ (x : ExplorationGraph V). IsSound x) (sym is_g') sound,
      )

  -- The graphs that successful insertions and assignments build from the empty one.
  pub data Reached : ExplorationGraph V → Type ℓ where
    start : Reached empty
    add :
        {g g' : ExplorationGraph V} (t id : ℕ) (label : EventLabel V)
        → Reached g
        → add_event g t label ≡ ok (g', id)
        → Reached g'
    assign :
        {g g' : ExplorationGraph V} (id : ℕ) (source : ReadsFromSource)
        → Reached g
        → set_reads_from_source g id source ≡ ok g'
        → Reached g'

  no_edge : (a b : ℕ) → Porf {V = V} empty.graph a b → ⊥
  no_edge a b (po o) = omega (arith, lt-length_of_get_elem? [] b o.second_at)
  no_edge a b (rf r) = omega (arith, lt-length_of_get_elem? [] b r.reader_at)

  empty-IsSound : IsSound {V = V} empty
  empty-IsSound = record {
    acyclic = λ up a b w e. no_edge b a e;
    closed = λ up. record {
      receiver = λ id s h. absurd (nothing_read id s h);
      origin = λ id a h. absurd (nothing_read id (from_send a) h);
    };
    pending = λ id h. absurd cc;
  }

  pub Reached-IsSound : (g : ExplorationGraph V) → Reached g → IsWellFormed g.graph × IsSound g
  Reached-IsSound g start = (empty_graph-IsWellFormed, empty-IsSound)
  Reached-IsSound g' (add {g} t id label r h) =
      let (v, s) = Reached-IsSound g r in add_event-IsSound g g' t id label v s h
  Reached-IsSound g' (assign {g} id source r h) =
      let (v, s) = Reached-IsSound g r in set_reads_from_source-IsSound g g' id source v s h

  -- In a graph that successful calls of add_event and set_reads_from_source built from the empty
  -- one, the known-acyclic flag is up only if program order and reads-from have no cycle.
  pub known_acyclic-IsAcyclic :
      (g : ExplorationGraph V) → Reached g → g.known_acyclic ≡ true → IsAcyclic (Porf g.graph)
  known_acyclic-IsAcyclic g r up = let (v, s) = Reached-IsSound g r in s.acyclic up
