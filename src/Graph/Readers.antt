-- ===== src/Graph/Readers.antt =====
-- include/dpor/model/execution_graph.hpp, for_each_validated_rf_edge, rf_relation and
-- unread_send_event_ids: the reads-from entries as edges.
use cpp_dpor.Prelude.{
  ℕ, Bool, false, not, List, [], ◌∷◌, Option, some, none, ltb, if◌then◌else◌, length, get_elem?,
  elem,
}
use cpp_dpor.Errors.{Result, ok, throw_if, precondition_error, ◌>>◌, ◌>>=◌}
use cpp_dpor.Event.{Event, is_receive, is_send}
use cpp_dpor.Graph.{ExecutionGraph, send_event_ids}
use cpp_dpor.Graph.ReadsFrom.{ReadsFromSource, from_send, bottom, to_list}
use cpp_dpor.Relation.Explicit.{ExplicitRelation, explicit, add_edge}

abbrev pub push_edge : Option (ℕ × ℕ) → List (ℕ × ℕ) → List (ℕ × ℕ)
push_edge none edges = edges
push_edge (some edge) edges = edge ∷ edges

pub add_edges : List (ℕ × ℕ) → ExplicitRelation → Result ExplicitRelation
add_edges [] r = ok r
add_edges ((source, receive) ∷ edges) r = do r' ← add_edge r source receive; add_edges edges r'

-- The sends that entries consume.
pub consumed : List (ℕ × ReadsFromSource) → List ℕ
consumed [] = []
consumed ((receive_id, bottom) ∷ entries) = consumed entries
consumed ((receive_id, from_send source_id) ∷ entries) = source_id ∷ consumed entries

pub without : List ℕ → List ℕ → List ℕ
without gone [] = []
without gone (id ∷ ids) = if elem id gone then without gone ids else id ∷ without gone ids

module _ {ℓ} {V : Type ℓ} where
  -- A test of the event with an id, once the id was found to be one of an event.
  abbrev pub passes : (Event V → Bool) → ExecutionGraph V → ℕ → Bool
  passes p g id = elim (get_elem? g.events id) [ none ↦ false | some e ↦ p e ]

  -- One entry: the edge that it gives to the callback, if it gives one.
  pub validated_edge : ExecutionGraph V → ℕ × ReadsFromSource → Result (Option (ℕ × ℕ))
  validated_edge g (receive_id, bottom) = do
    throw_if (not (ltb receive_id (length g.events))) precondition_error
    throw_if (not (passes is_receive g receive_id)) precondition_error
    ok none
  validated_edge g (receive_id, from_send source_id) = do
    throw_if (not (ltb receive_id (length g.events))) precondition_error
    throw_if (not (passes is_receive g receive_id)) precondition_error
    throw_if (not (ltb source_id (length g.events))) precondition_error
    throw_if (not (passes is_send g source_id)) precondition_error
    ok (some (source_id, receive_id))

  pub edges_of : ExecutionGraph V → List (ℕ × ReadsFromSource) → Result (List (ℕ × ℕ))
  unfolding validated_edge
  edges_of g [] = ok []
  edges_of g (entry ∷ entries) = do
    edge ← validated_edge g entry
    edges ← edges_of g entries
    ok (push_edge edge edges)

  -- What `for_each_validated_rf_edge` hands to its callback, in order, unless it throws.
  unfoldable pub validated_rf_edges : ExecutionGraph V → Result (List (ℕ × ℕ))
  unfolding edges_of
  validated_rf_edges g = edges_of g (to_list g.reads_from)

  pub rf_relation : ExecutionGraph V → Result ExplicitRelation
  unfolding validated_rf_edges add_edges
  rf_relation g = do edges ← validated_rf_edges g; add_edges edges (explicit (length g.events))

  pub unread_send_event_ids : ExecutionGraph V → List ℕ
  unfolding consumed without
  unread_send_event_ids g = without (consumed (to_list g.reads_from)) (send_event_ids g)
