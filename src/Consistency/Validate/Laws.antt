-- ===== src/Consistency/Validate/Laws.antt =====
-- include/dpor/model/consistency.hpp, validate_graph: what one entry, and all of them, add.
use cpp_dpor.Prelude.{
  ℕ, ◌+◌, ◌≡◌, inl, inr, refl, ◌∙◌, Bool, true, false, not, ◌&&◌, List, [], ◌∷◌, ◌++◌, arith, ltb,
  ◌==◌, if◌then◌else◌, lt→ltb, Bool-cases, Option-cases, length, get_elem?, get_or, set,
  lt-length_of_get_elem?,
}
use cpp_dpor.Event.{Event, is_receive, is_send}
use cpp_dpor.Graph.{ExecutionGraph}
use cpp_dpor.Graph.ReadsFrom.{ReadsFromSource, from_send, bottom}
use cpp_dpor.Consistency.Validate.{
  IssueCode, invalid_event_reference, reads_from_source_not_send, send_consumed_multiple_times,
  receive_destination_mismatch, receive_value_mismatch, reads_from_target_not_receive, Validation,
  report, report_unsafe, tests, source_exists, source_sends, blocking_receive, goes_to, thread_of,
  value_accepted, validate_edge, validate_source, validate_kinds, validate_entry,
}

abbrev pub is_nil : List IssueCode → Bool
is_nil [] = true
is_nil (code ∷ codes) = false

is_nil-snoc : (codes : List IssueCode) (code : IssueCode) → is_nil (codes ++ code ∷ []) ≡ false
is_nil-snoc [] code = refl
is_nil-snoc (c ∷ codes) code = refl

-- No issue so far.
abbrev pub quiet : Validation → Bool
quiet v = is_nil v.issues

pub quiet-report :
    (bad : Bool) (code : IssueCode) (v : Validation)
    → quiet (report bad code v) ≡ (quiet v && not bad)
quiet-report true code v = ground (arith, is_nil-snoc v.issues code)
quiet-report false code v = ground arith

quiet-report_unsafe :
    (bad : Bool) (code : IssueCode) (v : Validation)
    → quiet (report_unsafe bad code v) ≡ (quiet v && not bad)
quiet-report_unsafe true code v = ground (arith, is_nil-snoc v.issues code)
quiet-report_unsafe false code v = ground arith

report-false :
    (bad : Bool) (code : IssueCode) (v : Validation) → bad ≡ false → report bad code v ≡ v
report-false true code v h = cc
report-false false code v h = refl

report_unsafe-false :
    (bad : Bool) (code : IssueCode) (v : Validation) → bad ≡ false → report_unsafe bad code v ≡ v
report_unsafe-false true code v h = cc
report_unsafe-false false code v h = refl

-- The tables are kept by a report.
pub report-tables :
    (bad : Bool) (code : IssueCode) (v : Validation)
    → ((report bad code v).receive_has_source ≡ v.receive_has_source)
      × ((report bad code v).send_read_count ≡ v.send_read_count)
report-tables true code v = (refl, refl)
report-tables false code v = (refl, refl)

-- The source was not read before.
abbrev pub fresh : List ℕ → ReadsFromSource → Bool
fresh counts bottom = true
fresh counts (from_send a) = get_or counts a 0 == 0

-- The readers of each send after one more.
abbrev pub bump : List ℕ → ReadsFromSource → List ℕ
bump counts bottom = counts
bump counts (from_send a) =
    let c = get_or counts a 0 in set counts a (if ltb c 255 then c + 1 else c)

module _ {ℓ} {V : Type ℓ} where
  -- What the source of receive `id` must satisfy.
  abbrev pub source_ok : ExecutionGraph V → ℕ → ReadsFromSource → Bool
  source_ok g id bottom = not (tests blocking_receive g id)
  source_ok g id (from_send a) =
      tests is_send g a && (tests (goes_to (thread_of g id)) g a && value_accepted g id a)

  -- What an entry must satisfy on its own.
  abbrev pub entry_ok : ExecutionGraph V → ℕ → ReadsFromSource → Bool
  entry_ok g id source = tests is_receive g id && source_ok g id source

  pub tests-lt :
      (p : Event V → Bool) (g : ExecutionGraph V) (id : ℕ)
      → tests p g id ≡ true
      → ltb id (length g.events) ≡ true
  tests-lt p g id h = elim (Option-cases (get_elem? g.events id)) [
    | inl absent ↦ cc (rw (absent, tests) at h)
    | inr (e, at) ↦ lt→ltb id (length g.events) (lt-length_of_get_elem? g.events id at)
  ]

  quiet-validate_edge :
      (g : ExecutionGraph V) (v : Validation) (id a : ℕ)
      → quiet (validate_edge g v id a) ≡ (
          quiet v
          && (fresh v.send_read_count (from_send a)
              && (tests (goes_to (thread_of g id)) g a && value_accepted g id a)))
  unfolding validate_edge
  quiet-validate_edge g v id a =
      rw (quiet-report _ _ _) (rw (quiet-report _ _ _) (rw (quiet-report _ _ _) (ground arith)))

  quiet-validate_kinds :
      (g : ExecutionGraph V) (v : Validation) (id a : ℕ)
      → quiet (validate_kinds g v id (from_send a))
        ≡ (quiet v && (entry_ok g id (from_send a) && fresh v.send_read_count (from_send a)))
  unfolding validate_kinds validate_source
  quiet-validate_kinds g v id a = elim (Bool-cases (tests is_receive g id && tests is_send g a)) [
    | inl both ↦
        let receives : tests is_receive g id ≡ true = ground arith in
        let sends : tests is_send g a ≡ true = ground arith in
        rw receives (
          rw sends (
            quiet-validate_edge g
              (record v { receive_has_source = set v.receive_has_source id true }) id a
            ∙ ground arith))
    | inr neither ↦ rw neither (
        quiet-report_unsafe (not (source_sends g (from_send a))) reads_from_source_not_send (
          report_unsafe (not (tests is_receive g id)) reads_from_target_not_receive
            (record v { receive_has_source = set v.receive_has_source id true }))
        ∙ ground (
          arith,
          quiet-report_unsafe (not (tests is_receive g id)) reads_from_target_not_receive
              (record v { receive_has_source = set v.receive_has_source id true }),
        ))
  ]

  pub quiet-validate_entry :
      (g : ExecutionGraph V) (v : Validation) (id : ℕ) (source : ReadsFromSource)
      → quiet (validate_entry g v (id, source))
        ≡ (quiet v && (entry_ok g id source && fresh v.send_read_count source))
  unfolding validate_entry validate_kinds validate_source
  quiet-validate_entry g v id bottom = elim (Bool-cases (tests is_receive g id)) [
    | inl receives ↦
        let known = tests-lt is_receive g id receives in
        rw known (rw receives (quiet-report (tests blocking_receive g id) _ _ ∙ ground arith))
    | inr other ↦ elim (Bool-cases (ltb id (length g.events))) [
      | inl known ↦ rw known (rw other (is_nil-snoc _ _ ∙ ground arith))
      | inr unknown ↦ rw unknown (rw other (is_nil-snoc _ _ ∙ ground arith))
    ]
  ]
  quiet-validate_entry g v id (from_send a) =
      elim (Bool-cases (ltb id (length g.events) && ltb a (length g.events))) [
        | inl known ↦
            let id_known : ltb id (length g.events) ≡ true = ground arith in
            let a_known : ltb a (length g.events) ≡ true = ground arith in
            rw id_known (rw a_known (quiet-validate_kinds g v id a))
        | inr unknown ↦ rw unknown (
            quiet-report_unsafe (not (source_exists g (from_send a))) invalid_event_reference
              (report_unsafe (not (ltb id (length g.events))) invalid_event_reference v)
            ∙ ground (
              arith,
              quiet-report_unsafe (not (ltb id (length g.events))) invalid_event_reference v,
              tests-lt is_receive g id,
              tests-lt is_send g a,
            ))
      ]

  validate_edge-tables :
      (g : ExecutionGraph V) (v : Validation) (id a : ℕ)
      → ((validate_edge g v id a).receive_has_source ≡ v.receive_has_source)
        × ((validate_edge g v id a).send_read_count ≡ bump v.send_read_count (from_send a))
  unfolding validate_edge
  validate_edge-tables g v id a =
      let c = get_or v.send_read_count a 0 in
      let c' : ℕ = if ltb c 255 then c + 1 else c in
      let v1 = record v { send_read_count = set v.send_read_count a c' } in
      let (h1, k1) = report-tables (ltb 1 c') send_consumed_multiple_times v1 in
      let v2 = report (ltb 1 c') send_consumed_multiple_times v1 in
      let bad = not (tests (goes_to (thread_of g id)) g a) in
      let (h2, k2) = report-tables bad receive_destination_mismatch v2 in
      let v3 = report bad receive_destination_mismatch v2 in
      let (h3, k3) = report-tables (not (value_accepted g id a)) receive_value_mismatch v3 in
      (h3 ∙ (h2 ∙ h1), k3 ∙ (k2 ∙ k1))

  -- The tables after an entry that is in order.
  pub validate_entry-tables :
      (g : ExecutionGraph V) (v : Validation) (id : ℕ) (source : ReadsFromSource)
      → entry_ok g id source ≡ true
      → ((validate_entry g v (id, source)).receive_has_source ≡ set v.receive_has_source id true)
        × ((validate_entry g v (id, source)).send_read_count ≡ bump v.send_read_count source)
  unfolding validate_entry validate_kinds validate_source validate_edge
  validate_entry-tables g v id bottom h =
      let receives : tests is_receive g id ≡ true = ground arith in
      let known = tests-lt is_receive g id receives in
      rw known (rw receives (report-tables (tests blocking_receive g id) _ _))
  validate_entry-tables g v id (from_send a) h =
      let receives : tests is_receive g id ≡ true = ground arith in
      let known = tests-lt is_receive g id receives in
      let sends : tests is_send g a ≡ true = ground arith in
      let exists = tests-lt is_send g a sends in
      rw known (
        rw exists (
          rw receives (
            rw sends (
              validate_edge-tables g
                (record v { receive_has_source = set v.receive_has_source id true }) id a))))
