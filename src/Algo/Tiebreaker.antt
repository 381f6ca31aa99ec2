-- ===== src/Algo/Tiebreaker.antt =====
-- include/dpor/algo/dpor.hpp, GETCONSTIEBREAKER: on a whole graph, and on the events that a mask keeps.
-- The comparison with the reference that a macro may switch on is left out.
pub mod Laws
use cpp_dpor.Prelude.{
  ℕ, zero, suc, ◌+◌, ◌-◌, ◌*◌, ◌^◌, ◌≤◌, ◌<◌, max, ◌≡◌, ◌≢◌, ◌↔◌, ◌⊎◌, inl, inr, refl, sym, ap, ◌∙◌,
  Bool, true, false, not, ◌&&◌, ◌||◌, List, [], ◌∷◌, ◌++◌, map, Option, some, none, arith, ltb, leb,
  ◌==◌, if◌then◌else◌, ltb→lt, lt→ltb, ltb-eq-false, ltb-false→le, leb→le, ==_iff, ==_refl, ==→eq,
  Bool-cases, Option-cases, List-cases, bool_ext, length, get_elem?, get_or, set, replicate,
  length-append, length-set, length-replicate, get_or-replicate, get_or-of_le, get_elem?-of_le,
  get_elem?-of_lt, get_elem?-append_left, get_elem?-append_last, pop_back, back?, pop_back-append,
  back?-append, get_or-set, lt-length_of_get_elem?, get_elem?-concat, grow, get_or-grow,
  le-length-grow, length-grow, put, get_or-put, elem, count, elem-count, count-append, elem-append,
  elem_of_get_elem?, get_elem?_of_elem, All, All-append, All-map,
}
use cpp_dpor.Errors.{Result, ok, throw, throw_if, internal_error, ◌>>◌, ◌>>=◌}
use cpp_dpor.Event.{
  CommunicationModel, async, fifo_p2p, ReceiveLabel, Event, as_receive, as_send, accepts,
  is_nonblocking,
}
use cpp_dpor.Graph.{event}
use cpp_dpor.Graph.ReadsFrom
use cpp_dpor.Graph.ReadsFrom.{from_send, bottom}
use cpp_dpor.Consistency.{is_consistent, check_exploring, check_exploration_graph}
use cpp_dpor.Exploration.{ExplorationGraph, event_at, event_count}
use cpp_dpor.Exploration.Copies.{with_rf, with_rf_preserving_known_acyclicity, rebind_rf}
use cpp_dpor.Exploration.Queries.{unread_send_event_ids, filter}
use cpp_dpor.Exploration.Porf.{porf_contains}
use cpp_dpor.Exploration.Restrict.{restrict_from_keep_mask, kept_from}
use cpp_dpor.Algo.Masked.{MaskedPorfContext, reset, keeps, send_is_unread, fifo_rewrite_violates}
use cpp_dpor.Algo.Masked.Reach.{reachable_from}

pub record Candidate : Type 0 where
  pub send_id : ℕ
  pub sender_thread : ℕ

-- The order of the sort.
abbrev pub before : Candidate → Candidate → Bool
before a b =
    if a.sender_thread == b.sender_thread
    then ltb a.send_id b.send_id
    else ltb a.sender_thread b.sender_thread

unfoldable pub insert : Candidate → List Candidate → List Candidate
insert c [] = c ∷ []
insert c (d ∷ ds) = if before d c then d ∷ insert c ds else c ∷ d ∷ ds

-- `std::sort`: equal candidates are the same, so the result is the only one in order.
unfoldable pub sort : List Candidate → List Candidate
unfolding insert
sort [] = []
sort (c ∷ cs) = insert c (sort cs)

-- The ids below a number, ascending.
abbrev pub ids_below : ℕ → List ℕ
ids_below zero = []
ids_below (suc n) = ids_below n ++ n ∷ []

-- The position of a value in a list.
unfoldable pub position_of : ℕ → List ℕ → Option ℕ
position_of a [] = none
position_of a (x ∷ xs) =
    let rest : Option ℕ = elim (position_of a xs) [ none ↦ none | some p ↦ some (p + 1) ] in
    if x == a then some 0 else rest

-- `AllowMissingReadsForNonTargetT`
abbrev pub tolerates_all_but : ℕ → ℕ → Bool
tolerates_all_but target_receive receive_id = not (receive_id == target_receive)

abbrev pub is_async : CommunicationModel → Bool
is_async async = true
is_async fifo_p2p = false

module _ {ℓ} {V : Type ℓ} where
  unfoldable pub rewiring_recv_creates_cycle : ExplorationGraph V → ℕ → ℕ → Result Bool
  rewiring_recv_creates_cycle g recv send_id = porf_contains g recv send_id

  -- The consistency check of a rewritten graph, which comes back with its flag.
  pub check_rewritten :
      ExplorationGraph V → ℕ → CommunicationModel → Bool → Result (ExplorationGraph V × Bool)
  check_rewritten g recv communication_model allow_non_target_missing_reads = do
    checked ←
        if allow_non_target_missing_reads
        then check_exploration_graph g communication_model (tolerates_all_but recv)
        else check_exploring communication_model g
    ok (checked.0, is_consistent checked.1)

  -- `graph.is_known_acyclic() && !rewiring_recv_creates_cycle(...)`
  pub preserves_acyclicity : ExplorationGraph V → ℕ → ℕ → Result Bool
  unfolding rewiring_recv_creates_cycle
  preserves_acyclicity g recv send_id =
      if g.known_acyclic
      then (rewiring_recv_creates_cycle g recv send_id >>= λ cyclic. ok (not cyclic))
      else ok false

  pub rewrite : ExplorationGraph V → ℕ → ℕ → Bool → Result (ExplorationGraph V)
  rewrite g recv send_id preserve =
      if preserve
      then with_rf_preserving_known_acyclicity g recv send_id
      else with_rf g recv send_id

  pub rf_rewrite_is_consistent :
      ExplorationGraph V → ℕ → ℕ → CommunicationModel → Bool → Result Bool
  unfolding rewiring_recv_creates_cycle preserves_acyclicity rewrite check_rewritten
  rf_rewrite_is_consistent g recv send_id async false = do
    cyclic ← rewiring_recv_creates_cycle g recv send_id
    ok (not cyclic)
  rf_rewrite_is_consistent g recv send_id communication_model allow = do
    preserve ← preserves_acyclicity g recv send_id
    rewritten ← rewrite g recv send_id preserve
    checked ← check_rewritten rewritten recv communication_model allow
    ok checked.1

  -- The test of the candidates, and the candidate that an event is.
  abbrev pub suits : ExplorationGraph V → ℕ → ReceiveLabel V → ℕ → Bool
  suits g thread label id = elim (event_at g id) [
    | none ↦ false
    | some e ↦ elim (as_send e) [
      | none ↦ false
      | some s ↦ s.destination == thread && accepts label s.value
    ]
  ]

  unfoldable pub candidates_of : ExplorationGraph V → List ℕ → List Candidate
  candidates_of g [] = []
  candidates_of g (id ∷ ids) =
      let thread : ℕ = elim (event_at g id) [ none ↦ 0 | some e ↦ e.thread ] in
      record { send_id = id; sender_thread = thread } ∷ candidates_of g ids

  -- The guards on the event, and its label.
  unfoldable pub blocking_label : Event V → Result (ReceiveLabel V)
  blocking_label e = elim (as_receive e) [
    | none ↦ throw internal_error
    | some label ↦ if is_nonblocking label then throw internal_error else ok label
  ]

  unfoldable pub current_send : ExplorationGraph V → ℕ → Result ℕ
  current_send g recv = elim (ReadsFrom.find g.graph.reads_from recv) [
    | none ↦ throw internal_error
    | some bottom ↦ throw internal_error
    | some (from_send send_id) ↦ ok send_id
  ]

  -- The unread sends that suit the receive and its own send, in order.
  unfoldable pub candidates : ExplorationGraph V → ℕ → ReceiveLabel V → List ℕ → ℕ → List Candidate
  unfolding sort candidates_of
  candidates g thread label unread current =
      let suiting = suits g thread label in
      sort (candidates_of g (filter suiting unread ++ filter suiting (current ∷ [])))

  -- The loop over the candidates where reachability decides.
  unfoldable pub first_acyclic : ExplorationGraph V → ℕ → List Candidate → Result ℕ
  unfolding rewiring_recv_creates_cycle
  first_acyclic g recv [] = throw internal_error
  first_acyclic g recv (c ∷ cs) =
      let rest = first_acyclic g recv cs in
      rewiring_recv_creates_cycle g recv c.send_id >>= λ cyclic.
      if cyclic then rest else ok c.send_id

  -- The loop where the rewritten graph is checked; it is made for the first candidate and rebound for
  -- the others.
  pub first_consistent :
      ExplorationGraph V
      → ℕ
      → CommunicationModel
      → Bool
      → Option (ExplorationGraph V)
      → List Candidate
      → Result ℕ
  unfolding preserves_acyclicity rewrite check_rewritten
  first_consistent g recv communication_model allow made [] = throw internal_error
  first_consistent g recv communication_model allow made (c ∷ cs) = do
    preserve ← preserves_acyclicity g recv c.send_id
    rewritten ← elim made [
      | none ↦ rewrite g recv c.send_id preserve
      | some previous ↦ rebind_rf previous recv c.send_id preserve
    ]
    checked ← check_rewritten rewritten recv communication_model allow
    elim checked.1 [
      | true ↦ ok c.send_id
      | false ↦ first_consistent g recv communication_model allow (some checked.0) cs
    ]

  unfoldable pub get_cons_tiebreaker : ExplorationGraph V → ℕ → CommunicationModel → Bool → Result ℕ
  unfolding blocking_label current_send candidates first_acyclic first_consistent
  get_cons_tiebreaker g recv communication_model allow_non_target_missing_reads = do
    e ← event g.graph recv
    label ← blocking_label e
    current ← current_send g recv
    own ← event g.graph current
    let found = candidates g e.thread label (unread_send_event_ids g) current
    if is_async communication_model && not allow_non_target_missing_reads
        then first_acyclic g recv found
        else first_consistent g recv communication_model allow_non_target_missing_reads none found

  pub get_cons_tiebreaker_masked_via_restriction :
      ExplorationGraph V → List Bool → ℕ → CommunicationModel → Result ℕ
  unfolding get_cons_tiebreaker position_of
  get_cons_tiebreaker_masked_via_restriction g mask recv communication_model = do
    restricted ← restrict_from_keep_mask g mask
    let new_to_old = kept_from 0 mask
    elim (position_of recv new_to_old) [
      | none ↦ throw internal_error
      | some remapped_recv ↦
          get_cons_tiebreaker restricted remapped_recv communication_model true >>= λ remapped_send.
          elim (get_elem? new_to_old remapped_send) [
            | none ↦ throw internal_error
            | some old_id ↦ ok old_id
          ]
    ]

  -- The loop over the candidates of a masked graph.
  unfoldable pub first_unreachable :
      ExplorationGraph V → MaskedPorfContext → Bool → List Bool → ℕ → ℕ → List Candidate → Result ℕ
  first_unreachable g m fifo reachable recv current [] = throw internal_error
  first_unreachable g m fifo reachable recv current (c ∷ cs) =
      if get_or reachable c.send_id false
        || (fifo && fifo_rewrite_violates g m recv c.send_id current)
      then first_unreachable g m fifo reachable recv current cs
      else ok c.send_id

  unfoldable pub get_cons_tiebreaker_masked :
      ExplorationGraph V → List Bool → ℕ → CommunicationModel → Result ℕ
  unfolding keeps blocking_label current_send candidates first_unreachable
  get_cons_tiebreaker_masked g mask recv communication_model = do
    let fifo = not (is_async communication_model)
    m ← reset g mask fifo
    throw_if (not (keeps mask recv)) internal_error
    e ← event g.graph recv
    label ← blocking_label e
    current ← current_send g recv
    throw_if (not (keeps mask current)) internal_error
    let unread = filter (send_is_unread mask m) (ids_below (event_count g))
    let found = candidates g e.thread label unread current
    reachable ← reachable_from g mask m recv
    first_unreachable g m fifo reachable recv current found
