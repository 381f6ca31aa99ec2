-- ===== src/Algo/Revisit.antt =====
-- include/dpor/algo/dpor.hpp: the Previous set, REVISITCONDITION.
use cpp_dpor.Prelude.{
  ℕ, zero, suc, Bool, true, false, not, List, [], ◌∷◌, ◌++◌, some, none, ltb, ◌==◌, if◌then◌else◌,
}
use cpp_dpor.Errors.{Result, ok, throw, throw_if, internal_error, ◌>>◌, ◌>>=◌}
use cpp_dpor.Event.{
  CommunicationModel, NondeterministicChoiceLabel, receive, send, nondet, block, error,
  is_nonblocking, is_receive,
}
use cpp_dpor.Graph.{event}
use cpp_dpor.Graph.ReadsFrom
use cpp_dpor.Graph.ReadsFrom.{ReadsFromSource, from_send, bottom, to_list}
use cpp_dpor.Exploration.{ExplorationGraph, event_count}
use cpp_dpor.Exploration.Queries.{inserted_before_or_equal}
use cpp_dpor.Exploration.Porf.{porf_contains}
use cpp_dpor.Algo.Config.{Comparison}
use cpp_dpor.Algo.Choices.{min_element}
use cpp_dpor.Algo.Tiebreaker.{get_cons_tiebreaker_masked}

abbrev pub is_bottom_source : ReadsFromSource → Bool
is_bottom_source bottom = true
is_bottom_source (from_send a) = false

module _ {ℓ} {V : Type ℓ} where
  -- Whether an event stands in Previous of `e` and `s`: inserted no later than `e`, or before `s` in
  -- program order and reads-from.
  unfoldable pub previous_contains : ExplorationGraph V → ℕ → ℕ → ℕ → Result Bool
  previous_contains g e s ep = inserted_before_or_equal g ep e >>= λ earlier. elim earlier [
    | true ↦ ok true
    | false ↦ porf_contains g ep s
  ]

  -- The loop over the ids below a number.
  pub previous_below : ExplorationGraph V → ℕ → ℕ → ℕ → Result (List Bool)
  unfolding previous_contains
  previous_below g e s zero = ok []
  previous_below g e s (suc n) = do
    mask ← previous_below g e s n
    kept ← previous_contains g e s n
    ok (mask ++ kept ∷ [])

  unfoldable pub compute_previous_set : ExplorationGraph V → ℕ → ℕ → Result (List Bool)
  unfolding previous_below
  compute_previous_set g e s = previous_below g e s (event_count g)

  unfoldable pub in_previous : ExplorationGraph V → ℕ → ℕ → ℕ → Result Bool
  unfolding previous_contains
  in_previous g e s ep = if ltb ep (event_count g) then previous_contains g e s ep else ok false

  -- One entry of the reads-from relation: whether a receive of Previous reads `e` there.
  unfoldable pub reads_in_previous : ExplorationGraph V → ℕ → ℕ → ℕ × ReadsFromSource → Result Bool
  unfolding in_previous
  reads_in_previous g e s (receive_id, bottom) = ok false
  reads_in_previous g e s (receive_id, from_send send_id) =
      if send_id == e
      then (event g.graph receive_id >>= λ reader.
          if is_receive reader then in_previous g e s receive_id else ok false)
      else ok false

  -- `std::ranges::none_of`
  unfoldable pub none_reads : ExplorationGraph V → ℕ → ℕ → List (ℕ × ReadsFromSource) → Result Bool
  unfolding reads_in_previous
  none_reads g e s [] = ok true
  none_reads g e s (entry ∷ entries) =
      let rest = none_reads g e s entries in
      reads_in_previous g e s entry >>= λ reads. if reads then ok false else rest

  -- The clause of a receive that may lack a message.
  unfoldable pub nonblocking_condition : ExplorationGraph V → ℕ → Result Bool
  nonblocking_condition g e = elim (ReadsFrom.find g.graph.reads_from e) [
    | none ↦ throw internal_error
    | some source ↦ ok (is_bottom_source source)
  ]

  -- The clause of a blocking receive.
  unfoldable pub blocking_condition : ExplorationGraph V → ℕ → ℕ → CommunicationModel → Result Bool
  unfolding in_previous compute_previous_set
  blocking_condition g e s communication_model = do
    present ← in_previous g e s e
    throw_if (not present) internal_error
    elim (ReadsFrom.find g.graph.reads_from e) [
      | none ↦ throw internal_error
      | some bottom ↦ throw internal_error
      | some (from_send current) ↦ in_previous g e s current >>= λ kept. elim kept [
        | false ↦ ok false
        | true ↦ compute_previous_set g e s >>= λ previous.
            get_cons_tiebreaker_masked g previous e communication_model >>= λ tiebreaker.
            ok (current == tiebreaker)
      ]
    ]

  -- The clause of a choice: it has the least of its values, or none to choose from.
  unfoldable pub choice_condition : Comparison V → NondeterministicChoiceLabel V → Bool
  unfolding min_element
  choice_condition values c = elim c.choices [
    | [] ↦ true
    | x ∷ xs ↦ values.same c.value (min_element values x xs)
  ]

  unfoldable pub revisit_condition :
      Comparison V → ExplorationGraph V → ℕ → ℕ → CommunicationModel → Result Bool
  unfolding nonblocking_condition blocking_condition choice_condition none_reads
  revisit_condition values g e s communication_model = do
    evt ← event g.graph e
    elim evt.label [
      | receive r ↦
          if is_nonblocking r
          then nonblocking_condition g e
          else blocking_condition g e s communication_model
      | nondet c ↦ ok (choice_condition values c)
      | send m ↦ none_reads g e s (to_list g.graph.reads_from)
      | block ↦ none_reads g e s (to_list g.graph.reads_from)
      | error m ↦ none_reads g e s (to_list g.graph.reads_from)
    ]
