-- ===== src/Consistency/Validate.antt =====
-- include/dpor/model/consistency.hpp, validate_graph: each reads-from entry, and each receive without
-- one, is looked at on its own.
pub mod Laws
pub mod Fold
pub mod Correct
use cpp_dpor.Prelude.{
  ℕ, zero, suc, ◌+◌, ◌-◌, ◌*◌, ◌^◌, ◌≤◌, ◌<◌, max, ◌≡◌, ◌≢◌, ◌↔◌, ◌⊎◌, inl, inr, refl, sym, ap, ◌∙◌,
  Bool, true, false, not, ◌&&◌, ◌||◌, List, [], ◌∷◌, ◌++◌, map, Option, some, none, arith, ltb, leb,
  ◌==◌, if◌then◌else◌, ltb→lt, lt→ltb, ltb-eq-false, ltb-false→le, leb→le, ==_iff, ==_refl, ==→eq,
  Bool-cases, Option-cases, bool_ext, length, get_elem?, get_or, set, replicate, length-append,
  length-set, length-replicate, get_or-replicate, get_or-of_le, get_elem?-of_le, get_elem?-of_lt,
  get_elem?-append_left, get_elem?-append_last, pop_back, back?, pop_back-append, back?-append,
  get_or-set, lt-length_of_get_elem?, get_elem?-concat, grow, get_or-grow, le-length-grow,
  length-grow, put, get_or-put, elem, count, elem-count, count-append, elem-append,
  elem_of_get_elem?, get_elem?_of_elem, All, All-append, All-map,
}
use cpp_dpor.Event.{
  Event, EventLabel, is_receive, is_send, as_receive, as_send, is_blocking, accepts, ReceiveLabel,
  SendLabel,
}
use cpp_dpor.Graph.{ExecutionGraph, is_valid_event_id}
use cpp_dpor.Graph
use cpp_dpor.Graph.ReadsFrom
use cpp_dpor.Graph.ReadsFrom.{ReadsFromSource, from_send, bottom, to_list}

pub data IssueCode : Type 0 where
  invalid_event_reference reads_from_target_not_receive reads_from_source_not_send : IssueCode
  missing_reads_from_for_receive blocking_receive_reads_bottom : IssueCode
  send_consumed_multiple_times receive_destination_mismatch receive_value_mismatch : IssueCode
  causal_cycle fifo_p2p_unread_earlier_matching_send fifo_p2p_receive_order_violation : IssueCode

-- The two tables are local to the pass.
pub record Validation : Type 0 where
  pub issues : List IssueCode
  pub valid_rf_edges : List (ℕ × ℕ)
  pub cycle_query_safe : Bool
  pub receive_has_source : List Bool
  pub send_read_count : List ℕ

-- `if (bad) add_issue(...)`
abbrev pub report : Bool → IssueCode → Validation → Validation
report bad code v = if bad then record v { issues = v.issues ++ code ∷ [] } else v

-- The same where the cycle query becomes unsafe too.
abbrev pub report_unsafe : Bool → IssueCode → Validation → Validation
report_unsafe bad code v =
    if bad then record v { issues = v.issues ++ code ∷ []; cycle_query_safe = false } else v

module _ {ℓ} {V : Type ℓ} where
  -- A test of the event with an id; an id of no event fails it.
  abbrev pub tests : (Event V → Bool) → ExecutionGraph V → ℕ → Bool
  tests p g id = elim (get_elem? g.events id) [ none ↦ false | some e ↦ p e ]

  -- `is_valid_event_id` and `is_send` of a source that is a send.
  abbrev pub source_exists : ExecutionGraph V → ReadsFromSource → Bool
  source_exists g (from_send a) = ltb a (length g.events)
  source_exists g bottom = true

  abbrev pub source_sends : ExecutionGraph V → ReadsFromSource → Bool
  source_sends g (from_send a) = tests is_send g a
  source_sends g bottom = true

  abbrev pub blocking_receive : Event V → Bool
  blocking_receive e = elim (as_receive e) [ none ↦ false | some r ↦ is_blocking r ]

  abbrev pub goes_to : ℕ → Event V → Bool
  goes_to t e = elim (as_send e) [ none ↦ false | some s ↦ s.destination == t ]

  -- The thread of the event with an id.
  abbrev pub thread_of : ExecutionGraph V → ℕ → ℕ
  thread_of g id = elim (get_elem? g.events id) [ none ↦ 0 | some e ↦ e.thread ]

  -- Whether receive `id` accepts the value of send `a`.
  abbrev pub value_accepted : ExecutionGraph V → ℕ → ℕ → Bool
  value_accepted g id a =
      tests
        (λ r. elim (as_receive r) [
          | none ↦ false
          | some receive ↦
              tests
                (λ s. elim (as_send s) [ none ↦ false | some send ↦ accepts receive send.value ]) g
                a
        ])
        g id

  -- A receive that reads a send, once both events are known to be of their kind.
  pub validate_edge : ExecutionGraph V → Validation → ℕ → ℕ → Validation
  validate_edge g v id a =
      let read_count = get_or v.send_read_count a 0 in
      let read_count' = if ltb read_count 255 then read_count + 1 else read_count in
      let v1 = record v { send_read_count = set v.send_read_count a read_count' } in
      let v2 = report (ltb 1 read_count') send_consumed_multiple_times v1 in
      let v3 =
        report (not (tests (goes_to (thread_of g id)) g a)) receive_destination_mismatch v2 in
      let v4 = report (not (value_accepted g id a)) receive_value_mismatch v3 in
      record v4 { valid_rf_edges = v4.valid_rf_edges ++ (a, id) ∷ [] }

  pub validate_source : ExecutionGraph V → Validation → ℕ → ReadsFromSource → Validation
  unfolding validate_edge
  validate_source g v id bottom =
      report (tests blocking_receive g id) blocking_receive_reads_bottom v
  validate_source g v id (from_send a) = validate_edge g v id a

  -- The kinds of the two ends.
  pub validate_kinds : ExecutionGraph V → Validation → ℕ → ReadsFromSource → Validation
  unfolding validate_source
  validate_kinds g v id source =
      let v1 = record v { receive_has_source = set v.receive_has_source id true } in
      let v2 = report_unsafe (not (tests is_receive g id)) reads_from_target_not_receive v1 in
      let v3 = report_unsafe (not (source_sends g source)) reads_from_source_not_send v2 in
      if tests is_receive g id && source_sends g source then validate_source g v3 id source else v3

  pub validate_entry : ExecutionGraph V → Validation → ℕ × ReadsFromSource → Validation
  unfolding validate_kinds
  validate_entry g v (id, source) =
      let known = ltb id (length g.events) in
      let v1 = report_unsafe (not known) invalid_event_reference v in
      let v2 = report_unsafe (not (source_exists g source)) invalid_event_reference v1 in
      if known && source_exists g source then validate_kinds g v2 id source else v2

  pub validate_entries : ExecutionGraph V → Validation → List (ℕ × ReadsFromSource) → Validation
  unfolding validate_entry
  validate_entries g v [] = v
  validate_entries g v (entry ∷ entries) = validate_entries g (validate_entry g v entry) entries

  -- The loop over the events from `id` on.
  pub validate_receives : List (Event V) → (ℕ → Bool) → ℕ → Validation → Validation
  validate_receives [] tolerated id v = v
  validate_receives (e ∷ es) tolerated id v = validate_receives es tolerated (suc id) (
      report (is_receive e && (not (get_or v.receive_has_source id false) && not (tolerated id)))
        missing_reads_from_for_receive v)

  unfoldable pub validate_graph : ExecutionGraph V → (ℕ → Bool) → Validation
  unfolding validate_entries validate_receives
  validate_graph g tolerated =
      let n = length g.events in
      let start : Validation = record {
        issues = [];
        valid_rf_edges = [];
        cycle_query_safe = true;
        receive_has_source = replicate n false;
        send_read_count = replicate n 0;
      } in
      validate_receives g.events tolerated 0 (validate_entries g start (to_list g.reads_from))
