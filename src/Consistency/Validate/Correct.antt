-- ===== src/Consistency/Validate/Correct.antt =====
-- include/dpor/model/consistency.hpp, validate_graph: when it reports no issue.
use cpp_dpor.Prelude.{
  ℕ, zero, suc, ◌+◌, ◌≤◌, ◌≡◌, ◌↔◌, inl, inr, refl, sym, ap, ◌∙◌, Bool, true, false, not, ◌&&◌,
  ◌||◌, List, [], ◌∷◌, some, arith, Bool-cases, length, get_elem?, get_or, replicate,
  length-replicate, get_or-replicate, elem,
}
use cpp_dpor.Event.{Event, is_receive}
use cpp_dpor.Graph.{ExecutionGraph}
use cpp_dpor.Graph.ReadsFrom
use cpp_dpor.Graph.ReadsFrom.{ReadsFromSource, from_send, bottom, to_list}
use cpp_dpor.Graph.ReadsFrom.Laws.{to_list_lem}
use cpp_dpor.Consistency.Validate.{
  IssueCode, Validation, report, missing_reads_from_for_receive, validate_entries,
  validate_receives, validate_graph,
}
use cpp_dpor.Consistency.Validate.Laws.{is_nil, quiet, entry_ok, quiet-report, report-tables}
use cpp_dpor.Consistency.Validate.Fold.{
  entry_of, firsts-All, firsts, readers, InOrder, all_ok, quiet-validate_entries,
  has_source-validate_entries, all_ok-Once, Once-all_ok,
}

is_nil-nil : (codes : List IssueCode) → is_nil codes ≡ true → codes ≡ []
is_nil-nil [] h = refl
is_nil-nil (code ∷ codes) h = cc

module _ {ℓ} {V : Type ℓ} where
  -- The receive with id `id` has a source, or may lack it.
  abbrev pub served : List Bool → (ℕ → Bool) → Event V → ℕ → Bool
  served has tolerated e id = not (is_receive e) || (get_or has id false || tolerated id)

  all_served : List Bool → (ℕ → Bool) → ℕ → List (Event V) → Bool
  all_served has tolerated id [] = true
  all_served has tolerated id (e ∷ es) =
      served has tolerated e id && all_served has tolerated (suc id) es

  quiet-validate_receives :
      (es : List (Event V)) (tolerated : ℕ → Bool) (id : ℕ) (v : Validation)
      → quiet (validate_receives es tolerated id v)
        ≡ (quiet v && all_served v.receive_has_source tolerated id es)
  unfolding validate_receives all_served
  quiet-validate_receives [] tolerated id v = ground arith
  quiet-validate_receives (e ∷ es) tolerated id v =
      let bad =
        is_receive e && (not (get_or v.receive_has_source id false) && not (tolerated id)) in
      quiet-validate_receives es tolerated (suc id) (report bad missing_reads_from_for_receive v)
      ∙ rw (report-tables bad missing_reads_from_for_receive v).0
          (rw (quiet-report bad missing_reads_from_for_receive v) (ground arith))

  all_served-at :
      (has : List Bool) (tolerated : ℕ → Bool) (id : ℕ) (es : List (Event V)) (k : ℕ) (e : Event V)
      → all_served has tolerated id es ≡ true
      → get_elem? es k ≡ some e
      → served has tolerated e (id + k) ≡ true
  unfolding all_served
  all_served-at has tolerated id [] k e h at = cc
  all_served-at has tolerated id (d ∷ es) zero e h at =
      let here : id + 0 ≡ id = omega arith in
      let same : d ≡ e = cc in rw here (rw (← same) (ground arith))
  all_served-at has tolerated id (d ∷ es) (suc k) e h at =
      let next : id + suc k ≡ suc id + k = omega arith in
      rw next (all_served-at has tolerated (suc id) es k e (ground arith) at)

  at-all_served :
      (has : List Bool) (tolerated : ℕ → Bool) (id : ℕ) (es : List (Event V))
      → ((k : ℕ) (e : Event V) → get_elem? es k ≡ some e → served has tolerated e (id + k) ≡ true)
      → all_served has tolerated id es ≡ true
  unfolding all_served
  at-all_served has tolerated id [] h = refl
  at-all_served has tolerated id (d ∷ es) h =
      let here : id + 0 ≡ id = omega arith in
      let now : served has tolerated d id ≡ true = rw here at (h 0 d refl) in
      let rest = at-all_served has tolerated (suc id) es (λ k e at.
        let next : id + suc k ≡ suc id + k = omega arith in rw next at (h (suc k) e at)) in
      ground arith

  -- What a graph must satisfy, cycles aside: each entry binds a receive, a blocking one to a send, a
  -- send that goes to the receive's thread with a value that the receive accepts; no send stands in two
  -- entries; each receive has a source, or may lack it.
  pub record IsValidated (g : ExecutionGraph V) (tolerated : ℕ → Bool) : Type ℓ where
    pub in_order :
        (id : ℕ) (s : ReadsFromSource)
        → ReadsFrom.find g.reads_from id ≡ some s
        → entry_ok g id s ≡ true
    pub read_once : (a : ℕ) → readers a (to_list g.reads_from) ≤ 1
    pub assigned :
        (id : ℕ) (e : Event V)
        → get_elem? g.events id ≡ some e
        → is_receive e ≡ true
        → tolerated id ≡ false
        → (s : ReadsFromSource) × (ReadsFrom.find g.reads_from id ≡ some s)

  found-firsts :
      (g : ExecutionGraph V) (id : ℕ) (s : ReadsFromSource)
      → ReadsFrom.find g.reads_from id ≡ some s
      → elem id (firsts (to_list g.reads_from)) ≡ true
  found-firsts g id s h =
      (to_list_lem (λ p. elem p.0 (firsts (to_list g.reads_from)) ≡ true) g.reads_from).0
        (firsts-All (to_list g.reads_from) (to_list g.reads_from) (λ j k. k)) id s h

  firsts-found :
      (g : ExecutionGraph V) (id : ℕ)
      → elem id (firsts (to_list g.reads_from)) ≡ true
      → (s : ReadsFromSource) × (ReadsFrom.find g.reads_from id ≡ some s)
  firsts-found g id h =
      entry_of (λ p. ReadsFrom.find g.reads_from p.0 ≡ some p.1) id (to_list g.reads_from)
        ((to_list_lem (λ p. ReadsFrom.find g.reads_from p.0 ≡ some p.1) g.reads_from).1
          (λ i s k. k))
        h

  module _ (g : ExecutionGraph V) (tolerated : ℕ → Bool) where
    entries : List (ℕ × ReadsFromSource)
    entries = to_list g.reads_from

    begin : Validation
    begin = record {
      issues = [];
      valid_rf_edges = [];
      cycle_query_safe = true;
      receive_has_source = replicate (length g.events) false;
      send_read_count = replicate (length g.events) 0;
    }

    counts : List ℕ
    counts = replicate (length g.events) 0

    has : List Bool
    unfolding begin entries
    has = (validate_entries g begin entries).receive_has_source

    quiet-validate_graph :
        quiet (validate_graph g tolerated)
        ≡ (all_ok g counts entries && all_served has tolerated 0 g.events)
    unfolding validate_graph begin has entries counts
    quiet-validate_graph =
        quiet-validate_receives g.events tolerated 0 (validate_entries g begin entries)
        ∙ rw (quiet-validate_entries g begin entries) refl

    counted : length counts ≡ length g.events
    unfolding counts
    counted = length-replicate (length g.events) 0

    has-entry :
        (j : ℕ) → all_ok g counts entries ≡ true → get_or has j false ≡ elem j (firsts entries)
    unfolding has begin counts
    has-entry j h =
        has_source-validate_entries g begin entries j (length-replicate (length g.events) false) h
        ∙ rw (get_or-replicate (length g.events) j false) refl

    sound : quiet (validate_graph g tolerated) ≡ true → IsValidated g tolerated
    unfolding entries
    sound h =
        let split = sym quiet-validate_graph ∙ h in
        let ok_all : all_ok g counts entries ≡ true = ground arith in
        let ok_served : all_served has tolerated 0 g.events ≡ true = ground arith in
        let (order, once) = all_ok-Once g counts entries counted ok_all in
        record {
          in_order = λ id s k. (to_list_lem (InOrder g) g.reads_from).0 order id s k;
          read_once = λ a. ground (arith, once a);
          assigned = λ id e at r t.
              let zero_plus : 0 + id ≡ id = omega arith in
              let here = all_served-at has tolerated 0 g.events id e ok_served at in
              firsts-found g id (sym (has-entry id ok_all) ∙ ground (arith, rw zero_plus at here));
        }

    served_at :
        IsValidated g tolerated
        → all_ok g counts entries ≡ true
        → (id : ℕ) (e : Event V) → get_elem? g.events id ≡ some e
        → served has tolerated e (0 + id) ≡ true
    unfolding entries
    served_at v ok_all id e at =
        let zero_plus : 0 + id ≡ id = omega arith in
        rw zero_plus (elim (Bool-cases (is_receive e && not (tolerated id))) [
          | inl needed ↦
              let (s, found) = v.assigned id e at (ground arith) (ground arith) in
              let here : get_or has id false ≡ true =
                has-entry id ok_all ∙ found-firsts g id s found in
              ground arith
          | inr free ↦ ground arith
        ])

    complete : IsValidated g tolerated → quiet (validate_graph g tolerated) ≡ true
    unfolding entries counts
    complete v =
        let ok_all : all_ok g counts entries ≡ true =
          Once-all_ok g counts entries counted ((to_list_lem (InOrder g) g.reads_from).1 v.in_order)
            (λ a k. (get_or-replicate (length g.events) a 0, v.read_once a)) in
        let ok_served : all_served has tolerated 0 g.events ≡ true =
          at-all_served has tolerated 0 g.events (λ id e at. served_at v ok_all id e at) in
        quiet-validate_graph ∙ ground arith

  -- validate_graph reports no issue exactly when each reads-from entry binds a receive, a blocking
  -- one never to bottom, to bottom or to a send that goes to the thread of the receive with a
  -- value that it accepts, no send stands in two entries, and each receive has a source or may
  -- lack it.
  pub validate_graph_lem :
      (g : ExecutionGraph V) (tolerated : ℕ → Bool)
      → ((validate_graph g tolerated).issues ≡ []) ↔ IsValidated g tolerated
  validate_graph_lem g tolerated =
      (λ h. sound g tolerated (ap is_nil h), λ v. is_nil-nil _ (complete g tolerated v))
