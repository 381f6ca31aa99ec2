-- ===== src/Algo/Masked.antt =====
-- include/dpor/algo/dpor.hpp, MaskedPorfContext: program order and reads-from over the events that a
-- mask keeps, and the FIFO clauses there. A context is what `reset` builds: the buffers that it reuses
-- carry nothing over.
pub mod Reach
pub mod Bounds
use cpp_dpor.Prelude.{
  ℕ, zero, suc, ◌+◌, ◌-◌, ◌*◌, ◌^◌, ◌≤◌, ◌<◌, max, ◌≡◌, ◌≢◌, ◌↔◌, ◌⊎◌, inl, inr, refl, sym, ap, ◌∙◌,
  Bool, true, false, not, ◌&&◌, ◌||◌, List, [], ◌∷◌, ◌++◌, map, Option, some, none, arith, ltb, leb,
  ◌==◌, if◌then◌else◌, ltb→lt, lt→ltb, ltb-eq-false, ltb-false→le, leb→le, ==_iff, ==_refl, ==→eq,
  Bool-cases, Option-cases, List-cases, bool_ext, length, get_elem?, get_or, set, replicate,
  length-append, length-set, length-replicate, get_or-replicate, get_or-of_le, get_elem?-of_le,
  get_elem?-of_lt, get_elem?-append_left, get_elem?-append_last, pop_back, back?, pop_back-append,
  back?-append, get_or-set, lt-length_of_get_elem?, get_elem?-concat, grow, get_or-grow,
  le-length-grow, length-grow, put, get_or-put, elem, count, elem-count, count-append, elem-append,
  elem_of_get_elem?, get_elem?_of_elem, All, All-append, All-map,
}
use cpp_dpor.Errors.{Result, ok, throw, throw_if, internal_error, ◌>>◌, ◌>>=◌}
use cpp_dpor.Event.{Event, as_send}
use cpp_dpor.Graph.{is_valid_event_id}
use cpp_dpor.Graph.ReadsFrom.{ReadsFromSource, from_send, bottom, to_list}
use cpp_dpor.Consistency.Fifo
use cpp_dpor.Consistency.Fifo.{Channel, is_channel, takes, skipped, overtaken, any_at_fault}
use cpp_dpor.Exploration.{ExplorationGraph, event_at, event_count}

-- The tables of a context without its graph and its mask.
pub record MaskedPorfContext : Type 0 where
  pub kept_events_by_thread : List (List ℕ)
  pub kept_position_in_thread : List (Option ℕ)
  pub consumed_send_mask : List Bool
  pub rf_consumer : List (Option ℕ)
  pub extra_rf_consumers : List (ℕ × ℕ)
  pub fifo_consumer : List (Option ℕ)
  pub channels : List Channel

-- `(*keep_mask_)[id]`, false beyond the mask.
unfoldable pub keeps : List Bool → ℕ → Bool
keeps mask id = get_or mask id false

-- A send joins its channel; a new channel is the last one.
pub enter_channel : ℕ → ℕ → ℕ → List Channel → List Channel
enter_channel s d id [] = record { sender = s; destination = d; send_ids = id ∷ [] } ∷ []
enter_channel s d id (c ∷ channels) =
    let rest = enter_channel s d id channels in
    if is_channel s d c then record c { send_ids = c.send_ids ++ id ∷ [] } ∷ channels else c ∷ rest

-- The consumers of a send outside its flat slot.
pub extras_of : ℕ → List (ℕ × ℕ) → List ℕ
extras_of from [] = []
extras_of from ((send_id, recv_id) ∷ extras) =
    let rest = extras_of from extras in if send_id == from then recv_id ∷ rest else rest

abbrev pub fresh_context : ℕ → MaskedPorfContext
fresh_context n = record {
  kept_events_by_thread = [];
  kept_position_in_thread = replicate n none;
  consumed_send_mask = replicate n false;
  rf_consumer = replicate n none;
  extra_rf_consumers = [];
  fifo_consumer = replicate n none;
  channels = [];
}

abbrev pub at_once : Option ℕ → List ℕ
at_once none = []
at_once (some id) = id ∷ []

-- The outer loop of a clause over the sends of a channel, `earlier` those that it has passed.
pub violates : (ℕ → ℕ → Bool) → List (Option ℕ) → List ℕ → List ℕ → Bool
unfolding any_at_fault
violates fault consumers earlier [] = false
violates fault consumers earlier (a ∷ ids) =
    let rest = violates fault consumers (earlier ++ a ∷ []) ids in
    elim (get_or consumers a none) [
      | none ↦ rest
      | some reader ↦ if any_at_fault (fault reader) earlier then true else rest
    ]

pub any_channel : (ℕ → ℕ → Bool) → List (Option ℕ) → List Channel → Bool
unfolding violates
any_channel fault consumers [] = false
any_channel fault consumers (c ∷ channels) =
    if violates fault consumers [] c.send_ids then true else any_channel fault consumers channels

unfoldable pub send_is_unread : List Bool → MaskedPorfContext → ℕ → Bool
unfolding keeps
send_is_unread mask m id = keeps mask id && not (get_or m.consumed_send_mask id false)

module _ {ℓ} {V : Type ℓ} where
  -- The first loop of `reset`, for a kept event.
  pub enter_event : Bool → ℕ → Event V → MaskedPorfContext → MaskedPorfContext
  unfolding enter_channel
  enter_event fifo id e m =
      let thread_events = get_or m.kept_events_by_thread e.thread [] in
      record m {
        kept_position_in_thread = set m.kept_position_in_thread id (some (length thread_events));
        kept_events_by_thread = put m.kept_events_by_thread e.thread [] (thread_events ++ id ∷ []);
        channels =
            if fifo
            then elim (as_send e) [
              | none ↦ m.channels
              | some send ↦ enter_channel e.thread send.destination id m.channels
            ]
            else m.channels;
      }

  pub enter_events : List Bool → Bool → ℕ → List (Event V) → MaskedPorfContext → MaskedPorfContext
  unfolding keeps enter_event
  enter_events mask fifo id [] m = m
  enter_events mask fifo id (e ∷ events) m =
      enter_events mask fifo (suc id) events (if keeps mask id then enter_event fifo id e m else m)

  -- The second loop, for a kept receive and its kept send.
  pub enter_read : ExplorationGraph V → Bool → ℕ → ℕ → MaskedPorfContext → MaskedPorfContext
  enter_read g fifo recv_id send_id m =
      let slot = get_or m.rf_consumer send_id none in
      record m {
        consumed_send_mask = set m.consumed_send_mask send_id true;
        rf_consumer = elim slot [
          | none ↦ set m.rf_consumer send_id (some recv_id)
          | some r ↦ m.rf_consumer
        ];
        extra_rf_consumers = elim slot [
          | none ↦ m.extra_rf_consumers
          | some r ↦ m.extra_rf_consumers ++ (send_id, recv_id) ∷ []
        ];
        fifo_consumer =
            if fifo && takes g.graph recv_id send_id
            then set m.fifo_consumer send_id (some recv_id)
            else m.fifo_consumer;
      }

  pub enter_reads :
      ExplorationGraph V
      → List Bool
      → Bool
      → List (ℕ × ReadsFromSource)
      → MaskedPorfContext
      → MaskedPorfContext
  unfolding keeps enter_read
  enter_reads g mask fifo [] m = m
  enter_reads g mask fifo ((recv_id, bottom) ∷ entries) m = enter_reads g mask fifo entries m
  enter_reads g mask fifo ((recv_id, from_send send_id) ∷ entries) m =
      enter_reads g mask fifo entries (
        if keeps mask recv_id && keeps mask send_id then enter_read g fifo recv_id send_id m else m)

  unfoldable pub reset : ExplorationGraph V → List Bool → Bool → Result MaskedPorfContext
  unfolding enter_events enter_reads
  reset g mask build_fifo = do
    throw_if (not (length mask == event_count g)) internal_error
    ok (
        enter_reads g mask build_fifo (to_list g.graph.reads_from)
          (enter_events mask build_fifo 0 g.graph.events (fresh_context (event_count g))))

  pub fifo_clause_b_violated : ExplorationGraph V → MaskedPorfContext → Bool
  unfolding any_channel
  fifo_clause_b_violated g m =
      any_channel (skipped g.graph m.fifo_consumer) m.fifo_consumer m.channels

  pub fifo_clause_c_violated : ExplorationGraph V → MaskedPorfContext → Bool
  unfolding any_channel
  fifo_clause_c_violated g m =
      any_channel (overtaken g.graph m.fifo_consumer) m.fifo_consumer m.channels

  -- The consumers are put back afterwards: the context stays as it was.
  pub fifo_rewrite_violates : ExplorationGraph V → MaskedPorfContext → ℕ → ℕ → ℕ → Bool
  unfolding fifo_clause_b_violated fifo_clause_c_violated
  fifo_rewrite_violates g m recv candidate previous_source =
      let freed : List (Option ℕ) =
        if previous_source == candidate
        then m.fifo_consumer
        else set m.fifo_consumer previous_source none in
      let rewritten : MaskedPorfContext = record m {
        fifo_consumer = set freed candidate (some recv);
      } in
      fifo_clause_b_violated g rewritten || fifo_clause_c_violated g rewritten

  -- What `append_successors` appends, in order.
  pub successors_of : ExplorationGraph V → MaskedPorfContext → ℕ → List ℕ
  unfolding extras_of
  successors_of g m from =
      let thread : ℕ = elim (event_at g from) [ none ↦ 0 | some e ↦ e.thread ] in
      let next : Option ℕ = elim (get_or m.kept_position_in_thread from none) [
        | none ↦ none
        | some position ↦ get_elem? (get_or m.kept_events_by_thread thread []) (position + 1)
      ] in
      at_once next
      ++ (at_once (get_or m.rf_consumer from none) ++ extras_of from m.extra_rf_consumers)
