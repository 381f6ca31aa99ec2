-- ===== src/Consistency/Cycle.antt =====
-- include/dpor/model/consistency.hpp, has_causal_cycle: a depth-first search for a back edge.
use cpp_dpor.Prelude.{
  ℕ, zero, suc, Bool, true, false, ◌&&◌, ◌||◌, List, [], ◌∷◌, ◌++◌, ltb, ◌==◌, if◌then◌else◌,
  get_or, set, replicate,
}
use cpp_dpor.Errors.{Result, ok, ◌>>=◌}
use cpp_dpor.Relation.ProgramOrder.{ProgramOrderRelation, successors}

-- 0 is a node not visited, 1 one on the stack, 2 one that is done.
abbrev on_stack : ℕ
on_stack = 1

abbrev done : ℕ
done = 2

-- The loop over the successors of a node; `visit` is the recursive call.
pub scan : (ℕ → List ℕ → Bool × List ℕ) → List ℕ → List ℕ → Bool × List ℕ
scan visit [] states = (false, states)
scan visit (node ∷ nodes) states =
    let state = get_or states node 0 in
    let (cyclic, states') = if state == 0 then visit node states else (false, states) in
    if state == on_stack || cyclic then (true, states') else scan visit nodes states'

-- Each call marks a node that was not visited, so the number of nodes is enough fuel; a call without
-- fuel does not happen, and says that there is a cycle.
pub visit : List (List ℕ) → ℕ → ℕ → List ℕ → Bool × List ℕ
unfolding scan
visit adjacency zero node states = (true, states)
visit adjacency (suc fuel) node states =
    let (cyclic, states') =
      scan (visit adjacency fuel) (get_or adjacency node []) (set states node on_stack) in
    if cyclic then (true, states') else (false, set states' node done)

-- The nodes of program order, each with its successors.
pub adjacency_from : ProgramOrderRelation → List ℕ → Result (List (List ℕ))
adjacency_from po [] = ok []
adjacency_from po (node ∷ nodes) = do
  next ← successors po node
  rest ← adjacency_from po nodes
  ok (next ∷ rest)

pub add_edges : ℕ → List (ℕ × ℕ) → List (List ℕ) → List (List ℕ)
add_edges n [] adjacency = adjacency
add_edges n ((from, to) ∷ edges) adjacency = add_edges n edges (
    if ltb from n && ltb to n
    then set adjacency from (get_or adjacency from [] ++ to ∷ [])
    else adjacency)

-- The numbers below `n`, in order.
pub below : ℕ → List ℕ
below zero = []
below (suc n) = below n ++ n ∷ []

-- The loop over all nodes, from those that are not visited yet.
pub search_from : (ℕ → List ℕ → Bool × List ℕ) → List ℕ → List ℕ → Bool
search_from visit [] states = false
search_from visit (node ∷ nodes) states =
    let (cyclic, states') =
      if get_or states node 0 == 0 then visit node states else (false, states) in
    if cyclic then true else search_from visit nodes states'

pub has_causal_cycle : ProgramOrderRelation → List (ℕ × ℕ) → ℕ → Result Bool
unfolding adjacency_from visit search_from add_edges below
has_causal_cycle po rf_edges n = do
  adjacency ← adjacency_from po (below n)
  ok (search_from (visit (add_edges n rf_edges adjacency) n) (below n) (replicate n 0))
