-- ===== src/Graph/Rollback.antt =====
-- include/dpor/model/execution_graph.hpp, rollback_last_event and rollback_reads_from, after the
-- changes that they undo.
use cpp_dpor.Prelude.{
  ℕ, suc, ◌+◌, ◌<◌, ◌≡◌, inl, inr, refl, sym, ap, ◌∙◌, true, false, List, [], ◌∷◌, ◌++◌, some,
  arith, leb, ◌==◌, if◌then◌else◌, ==_refl, ==→eq, Bool-cases, Option-cases, length, get_elem?, set,
  length-append, get_elem?-append_last, pop_back, back?, pop_back-append, back?-append, get_or-set,
}
use mathlib.Core.Path.{subst}
use cpp_dpor.Errors.{Result, ok}
use cpp_dpor.Event.{Event, EventLabel, max_index}
use cpp_dpor.Graph.Indices.{no_indices}
use cpp_dpor.Graph.Indices
use cpp_dpor.Graph.Indices.Laws.{erase_lem, contains-insert}
use cpp_dpor.Graph.ReadsFrom.{ReadsFromSource}
use cpp_dpor.Graph.ReadsFrom
use cpp_dpor.Graph.ReadsFrom.Laws.{find-assign, find-clear}
use cpp_dpor.Graph.{
  ExecutionGraph, next_of, used_of, add_event, rollback_last_event, rollback_reads_from,
  set_reads_from_source,
}
use cpp_dpor.Graph.WellFormed.{IsWellFormed}
use cpp_dpor.Graph.WellFormed.Insertion.{inserted, refused, add_event_lem}

module _ {ℓ} {V : Type ℓ} where
  -- Two graphs that answer every question alike: they may differ in how much storage they hold.
  pub record SameView (g h : ExecutionGraph V) : Type ℓ where
    pub same_events : h.events ≡ g.events
    pub same_reads : (id : ℕ) → ReadsFrom.find h.reads_from id ≡ ReadsFrom.find g.reads_from id
    pub same_next : (t : ℕ) → next_of h t ≡ next_of g t
    pub same_used : (t i : ℕ) → Indices.contains (used_of h t) i ≡ Indices.contains (used_of g t) i

  -- Rolling back a graph whose last event came by an insertion.
  rollback_inserted :
      (g g' : ExecutionGraph V) (t i : ℕ) (label : EventLabel V)
      → IsWellFormed g'
      → g'.events ≡ g.events ++ record { thread = t; index = i; label = label } ∷ []
      → g'.reads_from ≡ g.reads_from
      → Indices.contains (used_of g t) i ≡ false
      → ((j : ℕ) → used_of g' j ≡ (if t == j then Indices.insert (used_of g t) i else used_of g j))
      → ((j : ℕ)
          → next_of g' j ≡ (if t == j then (if i == max_index then i else i + 1) else next_of g j))
      → (h : ExecutionGraph V) × (rollback_last_event g' (length g.events) t i (next_of g t) ≡ ok h)
        × SameView g h
  unfolding rollback_last_event
  rollback_inserted g g' t i label v events reads new used next =
      let e : Event V = record { thread = t; index = i; label = label } in
      let last : back? g'.events ≡ some e = ap back? events ∙ back?-append g.events e in
      let size : length g'.events ≡ suc (length g.events) =
        omega (arith, ap (length {A = Event V}) events, length-append g.events (e ∷ [])) in
      let stands : get_elem? g'.events (length g.events) ≡ some e =
        ap (λ (es : List (Event V)). get_elem? es (length g.events)) events
        ∙ get_elem?-append_last g.events e in
      let lt = v.stored (length g.events) e stands in
      let used_room : t < length g'.used_event_indices_by_thread = omega (arith, v.sizes) in
      let own : used_of g' t ≡ Indices.insert (used_of g t) i = ground (arith, used t) in
      let valid = (v.threads t).valid in
      let erased = λ (j : ℕ). erase_lem (used_of g' t) i j valid in
      let there = v.indexed (length g.events) e stands in
      let one : (Indices.erase (used_of g' t) i).1 ≡ 1 = (erased i).1 ∙ ground arith in
      (
        record g' {
          events = pop_back g'.events;
          used_event_indices_by_thread =
              set g'.used_event_indices_by_thread t (Indices.erase (used_of g' t) i).0;
          next_event_index_by_thread = set g'.next_event_index_by_thread t (next_of g t);
        },
        rw (last, rollback_last_event)
            (let at_tail : (suc (length g.events) == length g'.events) ≡ true = ground arith in
              let room : leb (length g'.next_event_index_by_thread) t ≡ false = ground arith in
              let room' : leb (length g'.used_event_indices_by_thread) t ≡ false = ground arith in
              let gone : ((Indices.erase (used_of g' t) i).1 == 1) ≡ true = ground arith in
              rw (at_tail, ==_refl t, ==_refl i, room, room', gone) refl),
        record {
          same_events = ap pop_back events ∙ pop_back-append g.events e;
          same_reads = λ id. ap (λ r. ReadsFrom.find r id) reads;
          same_next = λ j. ground (
            arith,
            get_or-set {A = ℕ} g'.next_event_index_by_thread t j (next_of g t) 0 lt,
            next j,
            ==→eq t j,
          );
          same_used = λ j k.
              let cell =
                get_or-set g'.used_event_indices_by_thread t j (Indices.erase (used_of g' t) i).0
                  no_indices used_room in
              elim (Bool-cases (t == j)) [
                | inl same ↦
                    ap (λ u. Indices.contains u k) (rw same at cell)
                    ∙ rw (← ==→eq t j same) (
                        ground (
                          arith,
                          erased k,
                          contains-insert (used_of g t) i k,
                          ap (λ u. Indices.contains u k) own,
                        ))
                | inr differ ↦
                    ap (λ u. Indices.contains u k) (rw differ at cell ∙ rw differ at (used j))
              ];
        },
      )

  -- From a well-formed graph, after add_event returned an id, the event has this id, and
  -- rollback_last_event with the id, the thread, the index of the event and the counter from
  -- before succeeds, in a graph with the events, sources, counters and used indices from before.
  pub rollback-add_event :
      (g g' : ExecutionGraph V) (t id : ℕ) (label : EventLabel V)
      → IsWellFormed g
      → add_event g t label ≡ ok (g', id)
      → (e : Event V) × (get_elem? g'.events id ≡ some e)
        × (h : ExecutionGraph V) × (rollback_last_event g' id t e.index (next_of g t) ≡ ok h)
        × SameView g h
  rollback-add_event g g' t id label v ran = elim (add_event_lem g t label v) [
    | refused e why ↦ absurd (ground arith)
    | inserted g1 i chosen e v' events reads low new used next ↦
        let same : ◌≡◌ {A = Result (ExecutionGraph V × ℕ)} (ok (g1, length g.events))
            (ok (g', id)) =
          sym e ∙ ran in
        let graphs : g1 ≡ g' = cc in
        let ids : length g.events ≡ id = cc in
        let (h, back, view) = rollback_inserted g g1 t i label v' events reads new used next in
        (
          record { thread = t; index = i; label = label },
          subst
              (λ n. get_elem? g'.events n ≡ some (record { thread = t; index = i; label = label }))
              ids
              (ap (λ (es : List (Event V)). get_elem? es (length g.events))
                  (ap (λ (k : ExecutionGraph V). k.events) (sym graphs) ∙ events)
                ∙ get_elem?-append_last g.events _),
          h,
          subst (λ n. rollback_last_event g' n t i (next_of g t) ≡ ok h) ids
              (subst (λ k. rollback_last_event k (length g.events) t i (next_of g t) ≡ ok h) graphs
                back),
          view,
        )
  ]

  -- After set_reads_from_source, rollback_reads_from with the source from before restores the
  -- source of every receive.
  pub rollback-set_reads_from :
      (g : ExecutionGraph V) (id j : ℕ) (source : ReadsFromSource)
      → ReadsFrom.find
          (rollback_reads_from
            (set_reads_from_source g id source)
            id
            (ReadsFrom.find g.reads_from id)).reads_from
          j
        ≡ ReadsFrom.find g.reads_from j
  unfolding rollback_reads_from set_reads_from_source
  rollback-set_reads_from g id j source =
      let r = ReadsFrom.assign g.reads_from id source in
      let first = find-assign g.reads_from id j source in
      elim (Option-cases (ReadsFrom.find g.reads_from id)) [
        | inl absent ↦ rw absent (find-clear r id j ∙ ground (arith, first, ==→eq id j))
        | inr (old, had) ↦ rw had (find-assign r id j old ∙ ground (arith, first, ==→eq id j))
      ]
