-- ===== src/Examples/Consistency.antt =====
-- The theorems on include/dpor/model/consistency.hpp at the graph in which a receive reads a send.
use cpp_dpor.Prelude.{ℕ, ◌≡◌, ◌↔◌, false, []}
use cpp_dpor.Graph.{ExecutionGraph, set_reads_from_source}
use cpp_dpor.Graph.ReadsFrom.{from_send}
use cpp_dpor.Consistency.Validate.{validate_graph}
use cpp_dpor.Consistency.Validate.Correct.{IsValidated, validate_graph_lem}
use cpp_dpor.Examples.Graphs.{two_events}

abbrev matched : ExecutionGraph ℕ
matched = set_reads_from_source two_events 1 (from_send 0)

validate_graph_lem_example :
    ((validate_graph matched (λ id. false)).issues ≡ []) ↔ IsValidated matched (λ id. false)
validate_graph_lem_example = validate_graph_lem matched (λ id. false)
