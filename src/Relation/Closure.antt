-- ===== src/Relation/Closure.antt =====
-- include/dpor/model/relation.hpp, TransitiveClosureRelation: reachability by one step or more.
pub mod Search
pub mod Correct
use cpp_dpor.Prelude.{
  ℕ, zero, suc, ◌+◌, ◌-◌, ◌*◌, ◌^◌, ◌≤◌, ◌<◌, max, ◌≡◌, ◌≢◌, ◌↔◌, ◌⊎◌, inl, inr, refl, sym, ap, ◌∙◌,
  Bool, true, false, not, ◌&&◌, ◌||◌, List, [], ◌∷◌, ◌++◌, map, Option, some, none, arith, ltb, leb,
  ◌==◌, if◌then◌else◌, ltb→lt, lt→ltb, ltb-eq-false, ltb-false→le, leb→le, ==_iff, ==_refl, ==→eq,
  Bool-cases, Option-cases, bool_ext, length, get_elem?, get_or, set, replicate, length-append,
  length-set, length-replicate, get_or-replicate, get_or-of_le, get_elem?-of_le, get_elem?-of_lt,
  get_elem?-append_left, get_elem?-append_last, pop_back, back?, pop_back-append, back?-append,
  get_or-set, lt-length_of_get_elem?, get_elem?-concat, grow, get_or-grow, le-length-grow,
  length-grow, put, get_or-put, elem, count, elem-count, count-append, elem-append,
  elem_of_get_elem?, get_elem?_of_elem, All, All-append, All-map,
}
use cpp_dpor.Errors.{Result, ok, throw, throw_if, precondition_error, ◌>>◌, ◌>>=◌}
use cpp_dpor.Relation.{Relation, IsRelation, validate_node}
use Search.{search}

-- The visited nodes in the order of the visit.
pub successors : Relation → ℕ → Result (List ℕ)
successors r a = do
  validate_node r.node_count a
  next ← r.successors a
  search r r.node_count next (replicate r.node_count false)

pub contains : Relation → ℕ → ℕ → Result Bool
unfolding successors
contains r a b = do
  validate_node r.node_count a
  validate_node r.node_count b
  reached ← successors r a
  ok (elem b reached)

pub transitive_closure : Relation → Relation
unfolding contains successors
transitive_closure r = record {
  node_count = r.node_count;
  contains = contains r;
  successors = successors r;
}
