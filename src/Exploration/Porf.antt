-- ===== src/Exploration/Porf.antt =====
-- include/dpor/model/exploration_graph.hpp, build_porf_adjacency_and_order, ensure_porf_cache and
-- porf_contains: a topological order of program order and reads-from, and the vector clocks along it.
-- The compressed rows of the adjacency are a list of rows. The cache is a memo of what ensure_porf_cache
-- builds, and the model builds it where the code asks for it. The changes of a graph drop the memo, but for
-- append_event_for_bulk_build, which the code calls on graphs that have none.
use cpp_dpor.Prelude.{
  ℕ, zero, suc, ◌+◌, ◌-◌, max, Bool, false, not, ◌||◌, List, [], ◌∷◌, ◌++◌, Option, some, none, ltb,
  leb, ◌==◌, if◌then◌else◌, length, get_or, set, replicate,
}
use cpp_dpor.Errors.{Result, ok, throw_if, precondition_error, ◌>>◌, ◌>>=◌}
use cpp_dpor.Graph.ReadsFrom.{ReadsFromSource, from_send, bottom, to_list}
use cpp_dpor.Graph.Readers.{validated_rf_edges}
use cpp_dpor.Exploration.{ExplorationGraph, event_at, event_count}

-- The pairs of neighbours in a list of events.
pub neighbours : List ℕ → List (ℕ × ℕ)
neighbours [] = []
neighbours (a ∷ []) = []
neighbours (a ∷ b ∷ ids) = (a, b) ∷ neighbours (b ∷ ids)

-- The immediate program-order edges, thread after thread.
pub po_edges : List (List ℕ) → List (ℕ × ℕ)
unfolding neighbours
po_edges [] = []
po_edges (ids ∷ threads) = neighbours ids ++ po_edges threads

pub enter_rows : List (ℕ × ℕ) → List (List ℕ) → List (List ℕ)
enter_rows [] rows = rows
enter_rows ((from, to) ∷ edges) rows =
    enter_rows edges (set rows from (get_or rows from [] ++ to ∷ []))

pub count_in : List (ℕ × ℕ) → List ℕ → List ℕ
count_in [] in_degree = in_degree
count_in ((from, to) ∷ edges) in_degree =
    count_in edges (set in_degree to (get_or in_degree to 0 + 1))

pub enter_preds : List (ℕ × ℕ) → List (Option ℕ) → List (Option ℕ)
enter_preds [] po_pred = po_pred
enter_preds ((from, to) ∷ edges) po_pred = enter_preds edges (set po_pred to (some from))

-- The nodes from `id` on with no edge into them; the back of `ready` is the head of the list.
pub ready_from : ℕ → List ℕ → List ℕ → List ℕ
ready_from id [] ready = ready
ready_from id (d ∷ in_degree) ready =
    ready_from (suc id) in_degree (if d == 0 then id ∷ ready else ready)

-- The loop over the successors of a node: the degrees and the stack.
pub relax : List ℕ → List ℕ → List ℕ → List ℕ × List ℕ
relax [] in_degree ready = (in_degree, ready)
relax (succ ∷ row) in_degree ready =
    let d = get_or in_degree succ 0 - 1 in
    relax row (set in_degree succ d) (if d == 0 then succ ∷ ready else ready)

-- `while (!ready.empty())`. Each round moves a node to the order, where none stands twice, so the
-- number of nodes is enough fuel.
pub kahn : ℕ → List (List ℕ) → List ℕ → List ℕ → List ℕ
unfolding relax
kahn fuel rows in_degree [] = []
kahn zero rows in_degree (node ∷ ready) = []
kahn (suc fuel) rows in_degree (node ∷ ready) =
    let r = relax (get_or rows node []) in_degree ready in node ∷ kahn fuel rows r.0 r.1

-- The edges of program order and reads-from, and the order.
pub record PorfScratch : Type 0 where
  pub po : List (ℕ × ℕ)
  pub rf : List (ℕ × ℕ)
  pub topo_order : List ℕ

pub topological_order : ℕ → List (ℕ × ℕ) → List ℕ
unfolding enter_rows count_in ready_from kahn
topological_order n edges =
    let in_degree = count_in edges (replicate n 0) in
    kahn n (enter_rows edges (replicate n [])) in_degree (ready_from 0 in_degree [])

pub record PorfCache : Type 0 where
  pub clocks : List (List ℕ)
  pub position_in_thread : List ℕ
  pub thread_clock_index : List (Option ℕ)
  pub num_threads : ℕ
  pub has_cycle : Bool

abbrev no_events : PorfCache
no_events = record {
  clocks = [];
  position_in_thread = [];
  thread_clock_index = [];
  num_threads = 0;
  has_cycle = false;
}

-- Dense clock indices for the threads with events, from `next` on; and the number of them all.
pub clock_indices : ℕ → List (List ℕ) → List (Option ℕ) × ℕ
clock_indices next [] = ([], next)
clock_indices next ([] ∷ threads) = let r = clock_indices next threads in (none ∷ r.0, r.1)
clock_indices next ((id ∷ ids) ∷ threads) =
    let r = clock_indices (suc next) threads in (some next ∷ r.0, r.1)

pub enter_positions : ℕ → List ℕ → List ℕ → List ℕ
enter_positions pos [] positions = positions
enter_positions pos (id ∷ ids) positions = enter_positions (suc pos) ids (set positions id pos)

pub positions_of : List (List ℕ) → List ℕ → List ℕ
unfolding enter_positions
positions_of [] positions = positions
positions_of (ids ∷ threads) positions = positions_of threads (enter_positions 0 ids positions)

pub enter_sources : List (ℕ × ReadsFromSource) → List (Option ℕ) → List (Option ℕ)
enter_sources [] rf_source = rf_source
enter_sources ((id, bottom) ∷ entries) rf_source = enter_sources entries rf_source
enter_sources ((id, from_send a) ∷ entries) rf_source =
    enter_sources entries (set rf_source id (some a))

-- Pointwise maximum; the rows have one length.
pub join : List ℕ → List ℕ → List ℕ
join [] ys = []
join (x ∷ xs) [] = x ∷ xs
join (x ∷ xs) (y ∷ ys) = max x y ∷ join xs ys

-- The clock of an event from those of its predecessors; `index` is the clock index of its thread,
-- which a thread with an event has.
pub clock_of : ℕ → List (List ℕ) → Option ℕ → Option ℕ → Option ℕ → ℕ → List ℕ
unfolding join
clock_of width clocks po_pred rf_source index position =
    let base : List ℕ = elim po_pred [ none ↦ replicate width 0 | some p ↦ get_or clocks p [] ] in
    let joined : List ℕ = elim rf_source [
      | none ↦ base
      | some s ↦ join base (get_or clocks s [])
    ] in
    elim index [ none ↦ joined | some ci ↦ set joined ci (position + 1) ]

-- The loop along the topological order; `clock` gives the row of an event from the rows so far.
pub fill_clocks : (List (List ℕ) → ℕ → List ℕ) → List ℕ → List (List ℕ) → List (List ℕ)
fill_clocks clock [] clocks = clocks
fill_clocks clock (id ∷ order) clocks = fill_clocks clock order (set clocks id (clock clocks id))

module _ {ℓ} {V : Type ℓ} where
  pub porf_scratch : ExplorationGraph V → Result PorfScratch
  unfolding po_edges topological_order validated_rf_edges
  porf_scratch g = do
    rf ← validated_rf_edges g.graph
    let po = po_edges g.thread_event_ids
    ok (record { po = po; rf = rf; topo_order = topological_order (event_count g) (po ++ rf) })

  pub build_porf_adjacency_and_order : ExplorationGraph V → Result Bool
  unfolding porf_scratch
  build_porf_adjacency_and_order g = do
    scratch ← porf_scratch g
    ok (length scratch.topo_order == event_count g)

  pub has_causal_cycle_without_cache : ExplorationGraph V → Result Bool
  unfolding build_porf_adjacency_and_order
  has_causal_cycle_without_cache g = do acyclic ← build_porf_adjacency_and_order g; ok (not acyclic)

  -- `event(id).thread`
  abbrev pub thread_at : ExplorationGraph V → ℕ → ℕ
  thread_at g id = elim (event_at g id) [ none ↦ 0 | some e ↦ e.thread ]

  -- The row of event `id`.
  pub row_of :
      ExplorationGraph V
      → PorfCache
      → List (Option ℕ)
      → List (Option ℕ)
      → List (List ℕ)
      → ℕ
      → List ℕ
  unfolding clock_of
  row_of g cache po_pred rf_source clocks id =
      clock_of cache.num_threads clocks (get_or po_pred id none) (get_or rf_source id none)
        (get_or cache.thread_clock_index (thread_at g id) none)
        (get_or cache.position_in_thread id 0)

  pub porf_cache : ExplorationGraph V → Result PorfCache
  unfolding porf_scratch clock_indices positions_of enter_preds enter_sources fill_clocks row_of
  porf_cache g = if event_count g == 0 then ok no_events else do
    scratch ← porf_scratch g
    let n = event_count g
    let indices = clock_indices 0 g.thread_event_ids
    let cache : PorfCache = record {
      clocks = [];
      position_in_thread = positions_of g.thread_event_ids (replicate n 0);
      thread_clock_index = indices.0;
      num_threads = indices.1;
      has_cycle = not (length scratch.topo_order == n);
    }
    let po_pred = enter_preds scratch.po (replicate n none)
    let rf_source = enter_sources (to_list g.graph.reads_from) (replicate n none)
    let filled = record cache {
      clocks =
          fill_clocks (row_of g cache po_pred rf_source) scratch.topo_order
            (replicate n (replicate cache.num_threads 0));
    }
    ok (if cache.has_cycle then cache else filled)

  pub has_causal_cycle : ExplorationGraph V → Result Bool
  unfolding porf_cache
  has_causal_cycle g = do cache ← porf_cache g; ok cache.has_cycle

  unfoldable pub porf_contains : ExplorationGraph V → ℕ → ℕ → Result Bool
  unfolding porf_cache
  porf_contains g from to = do
    throw_if (not (ltb from (event_count g)) || not (ltb to (event_count g))) precondition_error
    cache ← porf_cache g
    throw_if cache.has_cycle precondition_error
    ok (
        if from == to
        then false
        else elim (get_or cache.thread_clock_index (thread_at g from) none) [
          | none ↦ false
          | some ci ↦
              leb (get_or cache.position_in_thread from 0 + 1)
                (get_or (get_or cache.clocks to []) ci 0)
        ])
