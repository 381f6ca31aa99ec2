-- ===== src/Relation.antt =====
-- include/dpor/model/relation.hpp: the concept `Relation`, its views, and what they promise.
-- `for_each_successor` is modelled by the list of the nodes that it hands to its callback, in order.
pub mod Explicit
pub mod ProgramOrder
pub mod Views
pub mod Closure
use cpp_dpor.Prelude.{
  ℕ, zero, suc, ◌+◌, ◌-◌, ◌*◌, ◌^◌, ◌≤◌, ◌<◌, max, ◌≡◌, ◌≢◌, ◌↔◌, ◌⊎◌, inl, inr, refl, sym, ap, ◌∙◌,
  Bool, true, false, not, ◌&&◌, ◌||◌, List, [], ◌∷◌, ◌++◌, map, Option, some, none, arith, ltb, leb,
  ◌==◌, if◌then◌else◌, ltb→lt, lt→ltb, ltb-eq-false, ltb-false→le, leb→le, ==_iff, ==_refl, ==→eq,
  Bool-cases, Option-cases, bool_ext, length, get_elem?, get_or, set, replicate, length-append,
  length-set, length-replicate, get_or-replicate, get_or-of_le, get_elem?-of_le, get_elem?-of_lt,
  get_elem?-append_left, get_elem?-append_last, pop_back, back?, pop_back-append, back?-append,
  get_or-set, lt-length_of_get_elem?, get_elem?-concat, grow, get_or-grow, le-length-grow,
  length-grow, put, get_or-put, elem, count, elem-count, count-append, elem-append,
  elem_of_get_elem?, get_elem?_of_elem, All, All-append, All-map,
}
use cpp_dpor.Errors.{Result, ok, throw, throw_if, precondition_error}

pub record Relation : Type 0 where
  pub node_count : ℕ
  pub contains : ℕ → ℕ → Result Bool
  pub successors : ℕ → Result (List ℕ)

-- What every model of the concept promises, for a list of successors `next` of each node:
-- successors are nodes, and `contains` says whether a node stands among them.
pub record IsRelation (r : Relation) (next : ℕ → List ℕ) : Type 0 where
  pub listed : (a : ℕ) → a < r.node_count → r.successors a ≡ ok (next a)
  pub outside : (a : ℕ) → r.node_count ≤ a → r.successors a ≡ throw precondition_error
  pub in_range : (a b : ℕ) → elem b (next a) ≡ true → b < r.node_count
  pub member :
      (a b : ℕ) → a < r.node_count → b < r.node_count → r.contains a b ≡ ok (elem b (next a))

-- `validate_node`
abbrev pub validate_node : ℕ → ℕ → Result (Unit {0})
validate_node node_count node = throw_if (leb node_count node) precondition_error
