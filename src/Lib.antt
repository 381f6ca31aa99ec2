-- ===== src/Lib.antt =====
-- CPP-DPOR: a header library for stateless model checking of message-passing programs by dynamic
-- partial order reduction. Executions are graphs of events with program order and reads-from.
--
-- The parts, from the bottom:
-- - Errors (include/dpor/errors.hpp): an operation that may throw returns a Result; precondition_error,
--   internal_error and user_code_error are its errors.
-- - Event (include/dpor/model/event.hpp): events with their thread, index and label. ValueT is a
--   parameter `V`; a receive matcher is a total function into Bool.
-- - Relation (include/dpor/model/relation.hpp): the concept Relation as a record of node count, contains
--   and successors, with its laws IsRelation, which is what the views ask of their operands and what
--   each model gives: Relation/Explicit, Relation/ProgramOrder, Relation/Views (compose,
--   relation_union), Relation/Closure (transitive_closure, a depth-first search).
-- - Graph (include/dpor/model/execution_graph.hpp): ExecutionGraphT. Graph/Indices is UsedEventIndexSet,
--   Graph/ReadsFrom is ReadsFromRelationT, Graph/WellFormed the invariant of the event indices,
--   Graph/ThreadOrder the derivation of program order, Graph/Rollback the undoing of changes,
--   Graph/Readers the reads-from entries as edges.
-- - Exploration (include/dpor/model/exploration_graph.hpp): ExplorationGraphT, an execution graph with
--   caches, undo logs and the known-acyclic flag. Exploration/Insert is add_event, Exploration/History
--   checkpoint and rollback, Exploration/Acyclic what the flag means,
--   Exploration/Cached what the caches hold, Exploration/Copies with_rf,
--   rebind_rf and with_nd_value, Exploration/Restrict restrict_from_keep_mask, Exploration/Queries what
--   is asked of the caches, Exploration/Porf the cache of program-order and reads-from clocks.
-- - Consistency (include/dpor/model/consistency.hpp): Consistency/Validate is validate_graph,
--   Consistency/Cycle is has_causal_cycle, Consistency/Fifo the clauses of FIFO channels; the parent
--   composes them to the checks, and Consistency/Checked says what they leave of the graph.
-- - Program (include/dpor/algo/program.hpp): ThreadMapT and its validation of the thread ids.
-- - Algo (include/dpor/algo/dpor.hpp): Algo/Results and Algo/Config are the result and the configuration
--   with the calls of its callbacks, Algo/Next compute_next_event and the sends for a receive,
--   Algo/Choices what is asked of the values of a choice, Algo/Masked MaskedPorfContext,
--   Algo/Tiebreaker the tiebreakers, Algo/Revisit revisit_condition, Algo/Children the graphs of revisits and of blocked receives, Algo/Executor the
--   SequentialExecutor. Algo/Explorer is DepthFirstExplorer: a stack of contexts, each with a graph and a
--   stack of frames; Algo/Explorer/Handlers is what it does for the top frame, Algo/Explorer/Loop the
--   loop and verify.
-- - Examples holds the theorems at concrete inputs, with the runs that they need.
--
-- A method that changes its object is a function to the new object. EventIndex and ThreadId are
-- natural numbers that the code's own guards bound (max_index, max_thread_id). The loop of
-- next_event_index runs on 2 ^ 32 units of fuel, more than there are indices; absorb_sparse on the
-- length of the sparse vector, from which each round takes an entry; the search of the closure on
-- the number of nodes, each of which it marks once; the search for a causal cycle and the topological
-- sort on the number of events; the masked search on (n + 1) * (k + 2) for n events and k extra
-- consumers, as a node hands on k + 2 others at most; the exploration on fuel that its caller gives,
-- of which there is always enough. Vectors are lists; a vector that serves as a stack of undo entries
-- has its back at the head of the list. porf_cache_ is no field: the model builds the cache where the
-- code asks for it.
--
-- Not modelled: matchers that throw, error messages, the fatal-error observer, the parallel executor,
-- formatting, examples, benchmarks and tests.
pub mod Prelude
pub mod Errors
pub mod Event
pub mod Program
pub mod Relation
pub mod Graph
pub mod Consistency
pub mod Exploration
pub mod Algo
pub mod Examples
