-- ===== src/Exploration/Acyclic/Edges.antt =====
-- include/dpor/model/exploration_graph.hpp, add_event and set_reads_from_source: the edges that an
-- event at the end of the graph, and a source of a receive there, add.
use cpp_dpor.Prelude.{
  ℕ, suc, ◌<◌, ◌≡◌, ◌≢◌, sym, ap, ◌∙◌, true, List, [], ◌∷◌, ◌++◌, some, arith, ◌==◌, if◌then◌else◌,
  length, get_elem?, length-append, lt-length_of_get_elem?, get_elem?-concat,
}
use cpp_dpor.Event.{Event, is_receive, is_send}
use cpp_dpor.Graph.{ExecutionGraph, set_reads_from_source}
use cpp_dpor.Graph.ReadsFrom.{ReadsFromSource, from_send, bottom}
use cpp_dpor.Graph.ReadsFrom
use cpp_dpor.Graph.ReadsFrom.Laws.{find-assign}
use cpp_dpor.Exploration.Acyclic.{IsAcyclic, maximal-IsAcyclic, Porf, po, rf, IsClosed}

module _ {ℓ} {V : Type ℓ} where
  module _ (g g' : ExecutionGraph V) (e : Event V) (events : g'.events ≡ g.events ++ e ∷ [])
      (reads : g'.reads_from ≡ g.reads_from) where
    appended :
        (i : ℕ)
        → get_elem? g'.events i ≡ (if i == length g.events then some e else get_elem? g.events i)
    appended i = ap (λ (es : List (Event V)). get_elem? es i) events ∙ get_elem?-concat g.events e i

    grown : length g'.events ≡ suc (length g.events)
    grown = omega (arith, ap (length {A = Event V}) events, length-append g.events (e ∷ []))

    same_find : (i : ℕ) → ReadsFrom.find g'.reads_from i ≡ ReadsFrom.find g.reads_from i
    same_find i = ap (λ r. ReadsFrom.find r i) reads

    append-stuck : IsClosed g → (x y : ℕ) → Porf g' x y → x ≢ length g.events
    append-stuck closed x y (po o) h =
        absurd (omega (arith, o.ordered, grown, lt-length_of_get_elem? g'.events y o.second_at))
    append-stuck closed x y (rf r) h =
        absurd (omega (arith, closed.origin y x (sym (same_find y) ∙ r.source)))

    append-old : IsClosed g → (x y : ℕ) → Porf g' x y → y ≢ length g.events → Porf g x y
    append-old closed x y (po o) h =
        let off = append-stuck closed x y (po o) in
        po (record {
          ordered = o.ordered;
          first = o.first;
          second = o.second;
          first_at = ground (arith, appended x, o.first_at);
          second_at = ground (arith, appended y, o.second_at);
          together = o.together;
        })
    append-old closed x y (rf r) h =
        let off = append-stuck closed x y (rf r) in
        rf (record {
          source = sym (same_find y) ∙ r.source;
          sender = r.sender;
          sender_at = ground (arith, appended x, r.sender_at);
          sends = r.sends;
          reader = r.reader;
          reader_at = ground (arith, appended y, r.reader_at);
        })

    pub append-IsAcyclic : IsClosed g → IsAcyclic (Porf g) → IsAcyclic (Porf g')
    append-IsAcyclic closed acyclic =
        maximal-IsAcyclic (Porf g) (Porf g') (length g.events) (append-stuck closed)
          (append-old closed) acyclic

    pub append-IsClosed : IsClosed g → IsClosed g'
    append-IsClosed closed = record {
      receiver = λ i s h. omega (arith, grown, closed.receiver i s (sym (same_find i) ∙ h));
      origin = λ i a h. omega (arith, grown, closed.origin i a (sym (same_find i) ∙ h));
    }

  -- A source that a receive may be given: bottom, or an event that is a send.
  pub data IsSource (g : ExecutionGraph V) (s : ReadsFromSource) : Type ℓ where
    no_send : s ≡ bottom → IsSource g s
    a_send :
        (a : ℕ) (d : Event V)
        → s ≡ from_send a
        → get_elem? g.events a ≡ some d
        → is_send d ≡ true
        → IsSource g s

  module _ (g : ExecutionGraph V) (id : ℕ) (s : ReadsFromSource) (e : Event V)
      (last : suc id ≡ length g.events) (at : get_elem? g.events id ≡ some e)
      (receives : is_receive e ≡ true) where
    reads' :
        (j : ℕ)
        → ReadsFrom.find (set_reads_from_source g id s).reads_from j
          ≡ (if id == j then some s else ReadsFrom.find g.reads_from j)
    unfolding set_reads_from_source
    reads' j = find-assign g.reads_from id j s

    assign-stuck : (x y : ℕ) → Porf (set_reads_from_source g id s) x y → x ≢ id
    unfolding set_reads_from_source
    assign-stuck x y (po o) h =
        absurd (omega (arith, o.ordered, last, lt-length_of_get_elem? g.events y o.second_at))
    assign-stuck x y (rf r) h =
        let both : some e ≡ some r.sender =
          sym at ∙ (ap (get_elem? g.events) (sym h) ∙ r.sender_at) in
        not_both e r.sender both receives r.sends
      where
        not_both : (d f : Event V) → some d ≡ some f → is_receive d ≡ true → is_send f ≡ true → ⊥
        not_both d f same r s = ground (arith, same)

    assign-old : (x y : ℕ) → Porf (set_reads_from_source g id s) x y → y ≢ id → Porf g x y
    unfolding set_reads_from_source
    assign-old x y (po o) h = po (record {
      ordered = o.ordered;
      first = o.first;
      second = o.second;
      first_at = o.first_at;
      second_at = o.second_at;
      together = o.together;
    })
    assign-old x y (rf r) h = rf (record {
      source = ground (arith, reads' y, r.source);
      sender = r.sender;
      sender_at = r.sender_at;
      sends = r.sends;
      reader = r.reader;
      reader_at = r.reader_at;
    })

    pub assign-IsAcyclic : IsAcyclic (Porf g) → IsAcyclic (Porf (set_reads_from_source g id s))
    assign-IsAcyclic acyclic =
        maximal-IsAcyclic (Porf g) (Porf (set_reads_from_source g id s)) id assign-stuck assign-old
          acyclic

    assigned_origin : IsSource g s → (a : ℕ) → s ≡ from_send a → a < length g.events
    assigned_origin (no_send e) a h = absurd (ground arith)
    assigned_origin (a_send b d e at_b sends) a h =
        ground (arith, lt-length_of_get_elem? g.events b {a = d})

    pub assign-IsClosed : IsSource g s → IsClosed g → IsClosed (set_reads_from_source g id s)
    unfolding set_reads_from_source
    assign-IsClosed source closed = record {
      receiver = λ j t h. ground (arith, reads' j, closed.receiver j t);
      origin = λ j a h. ground (arith, reads' j, closed.origin j a, assigned_origin source a);
    }
