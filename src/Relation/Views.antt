-- ===== src/Relation/Views.antt =====
-- include/dpor/model/relation.hpp, ComposeRelation and UnionRelation: the lazy views.
use cpp_dpor.Prelude.{
  ℕ, zero, suc, ◌+◌, ◌-◌, ◌*◌, ◌^◌, ◌≤◌, ◌<◌, max, ◌≡◌, ◌≢◌, ◌↔◌, ◌⊎◌, inl, inr, refl, sym, ap, ◌∙◌,
  Bool, true, false, not, ◌&&◌, ◌||◌, List, [], ◌∷◌, ◌++◌, map, Option, some, none, arith, ltb, leb,
  ◌==◌, if◌then◌else◌, ltb→lt, lt→ltb, ltb-eq-false, ltb-false→le, leb→le, ==_iff, ==_refl, ==→eq,
  Bool-cases, Option-cases, bool_ext, length, get_elem?, get_or, set, replicate, length-append,
  length-set, length-replicate, get_or-replicate, get_or-of_le, get_elem?-of_le, get_elem?-of_lt,
  get_elem?-append_left, get_elem?-append_last, pop_back, back?, pop_back-append, back?-append,
  get_or-set, lt-length_of_get_elem?, get_elem?-concat, grow, get_or-grow, le-length-grow,
  length-grow, put, get_or-put, elem, count, elem-count, count-append, elem-append,
  elem_of_get_elem?, get_elem?_of_elem, All, All-append, All-map,
}
pub mod Laws
use cpp_dpor.Errors.{Result, ok, throw, throw_if, precondition_error, ◌>>◌, ◌>>=◌}
use cpp_dpor.Relation.{Relation, IsRelation, validate_node}

-- The callback with its `emitted` flags: it passes on each node the first time that it comes.
pub emit : List Bool → List ℕ → List ℕ
emit emitted [] = []
emit emitted (x ∷ xs) =
    let fresh = x ∷ emit (set emitted x true) xs in
    let seen = emit emitted xs in if get_or emitted x false then seen else fresh

-- `contains` of the right relation is asked until an intermediate node is found.
any_contains : Relation → ℕ → List ℕ → Result Bool
any_contains r to [] = ok false
any_contains r to (x ∷ xs) = do
  found ← r.contains x to
  elim found [ true ↦ ok true | false ↦ any_contains r to xs ]

-- The successors of all intermediate nodes, in the order of the nested loops.
all_successors : Relation → List ℕ → Result (List ℕ)
all_successors r [] = ok []
all_successors r (x ∷ xs) = do ys ← r.successors x; zs ← all_successors r xs; ok (ys ++ zs)

pub compose_contains : Relation → Relation → ℕ → ℕ → Result Bool
unfolding any_contains
compose_contains left right a b = do
  validate_node left.node_count a
  validate_node left.node_count b
  middle ← left.successors a
  any_contains right b middle

pub compose_successors : Relation → Relation → ℕ → Result (List ℕ)
unfolding all_successors emit
compose_successors left right a = do
  validate_node left.node_count a
  middle ← left.successors a
  targets ← all_successors right middle
  ok (emit (replicate left.node_count false) targets)

pub compose : Relation → Relation → Result Relation
unfolding compose_contains compose_successors
compose left right = do
  throw_if (not (left.node_count == right.node_count)) precondition_error
  ok (record {
    node_count = left.node_count;
    contains = compose_contains left right;
    successors = compose_successors left right;
  })

pub union_contains : Relation → Relation → ℕ → ℕ → Result Bool
union_contains left right a b = do
  validate_node left.node_count a
  validate_node left.node_count b
  found ← left.contains a b
  elim found [ true ↦ ok true | false ↦ right.contains a b ]

pub union_successors : Relation → Relation → ℕ → Result (List ℕ)
unfolding emit
union_successors left right a = do
  validate_node left.node_count a
  xs ← left.successors a
  ys ← right.successors a
  ok (emit (replicate left.node_count false) (xs ++ ys))

pub relation_union : Relation → Relation → Result Relation
unfolding union_contains union_successors
relation_union left right = do
  throw_if (not (left.node_count == right.node_count)) precondition_error
  ok (record {
    node_count = left.node_count;
    contains = union_contains left right;
    successors = union_successors left right;
  })
