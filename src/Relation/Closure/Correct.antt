-- ===== src/Relation/Closure/Correct.antt =====
-- include/dpor/model/relation.hpp, TransitiveClosureRelation, against walks of one step or more.
use cpp_dpor.Prelude.{
  ℕ, ◌≤◌, ◌<◌, ◌≡◌, ◌↔◌, ◌⊎◌, inl, inr, refl, true, false, List, [], arith, ltb, ltb→lt, Bool-cases,
  replicate, length-replicate, get_or-replicate, elem, count,
}
use cpp_dpor.Errors.{ok, throw, precondition_error}
use cpp_dpor.Relation.{Relation, IsRelation}
use cpp_dpor.Relation.Closure.{successors, contains, transitive_closure}
use cpp_dpor.Relation.Closure.Search.{
  marked, search_lem, Searched, Walk, here, step, unseen-replicate,
}

-- A walk of one step or more.
abbrev pub Joined : (ℕ → List ℕ) → ℕ → ℕ → Type 0
Joined next a b = (p : ℕ) × (elem p (next a) ≡ true) × Walk next p b

-- The list of reached nodes, described.
pub record IsReached (next : ℕ → List ℕ) (a : ℕ) (out : List ℕ) : Type 0 where
  pub sound : (b : ℕ) → elem b out ≡ true → Joined next a b
  pub full : (b : ℕ) → Joined next a b → elem b out ≡ true
  pub once : (b : ℕ) → count b out ≤ 1

module _ (r : Relation) (next : ℕ → List ℕ) (law : IsRelation r next) where
  unmarked : (y : ℕ) → marked (replicate r.node_count false) y ≡ false
  unmarked y = get_or-replicate r.node_count y false

  Walk-reached :
      {pending out : List ℕ} {p b : ℕ}
      → Searched next pending (replicate r.node_count false) out
      → elem p out ≡ true
      → Walk next p b
      → elem b out ≡ true
  Walk-reached s h here = h
  Walk-reached s h (step {b} {c} w e) = ground (arith, s.closed b c, Walk-reached s h w, unmarked c)

  -- Over a lawful relation, the successors of a node in the transitive closure are found without a
  -- throw: exactly the nodes to which a walk of one step or more leads, each once.
  pub successors-IsReached :
      (a : ℕ) → a < r.node_count → (out : List ℕ) × (successors r a ≡ ok out) × IsReached next a out
  unfolding successors
  successors-IsReached a lt =
      let (out, e, s) =
        search_lem r next law r.node_count (next a) (replicate r.node_count false)
          (length-replicate r.node_count false) (law.in_range a)
          (omega (arith, unseen-replicate r.node_count)) in
      (
        out,
        ground (arith, law.listed a lt),
        record {
          sound = s.sound;
          full = λ b w. Walk-reached s (ground (arith, s.covers w.0, unmarked w.0)) w.2;
          once = λ b. omega (arith, s.once b);
        },
      )

  Walk-in_range : {a b : ℕ} → a < r.node_count → Walk next a b → b < r.node_count
  Walk-in_range h here = h
  Walk-in_range h (step {b} {c} w e) = law.in_range b c e

contains-outside :
    (r : Relation) (a b : ℕ)
    → (r.node_count ≤ a) ⊎ (r.node_count ≤ b)
    → contains r a b ≡ throw precondition_error
unfolding contains
contains-outside r a b (inl out) = ground (arith, out)
contains-outside r a b (inr out) = ground (arith, out)

-- What the closure lists from a node.
pub reached : Relation → ℕ → List ℕ
reached r a = elim (successors r a) [ ok out ↦ out | throw e ↦ [] ]

-- The transitive closure of a lawful relation is a lawful relation again: its contains and its
-- successors agree on nodes, where they do not throw; its successors throw a precondition error
-- for what is no node, and its contains does if one of the two is no node. It holds between two
-- nodes exactly when a walk of one step or more joins them.
pub transitive_closure-IsRelation :
    (r : Relation) (next : ℕ → List ℕ)
    → IsRelation r next
    → IsRelation (transitive_closure r) (reached r)
      × ((a b : ℕ) → a < r.node_count → (elem b (reached r a) ≡ true) ↔ Joined next a b)
      × ((a b : ℕ)
          → (r.node_count ≤ a) ⊎ (r.node_count ≤ b)
          → (transitive_closure r).contains a b ≡ throw precondition_error)
unfolding transitive_closure reached
transitive_closure-IsRelation r next law = (
  record {
    listed = λ a h. let (out, e, s) = successors-IsReached r next law a h in rw (e, reached) refl;
    outside = λ a h. unfold successors in ground arith;
    in_range = λ a b h. elim (Bool-cases (ltb a r.node_count)) [
      | inl inside ↦
          let lt = ltb→lt a r.node_count inside in
          let (out, e, s) = successors-IsReached r next law a lt in
          let (p, m, w) = s.sound b (ground arith) in
          Walk-in_range r next law (law.in_range a p m) w
      | inr beyond ↦ unfold successors in absurd (ground arith)
    ];
    member = λ a b ha hb.
        let (out, e, s) = successors-IsReached r next law a ha in unfold contains in ground arith;
  },
  λ a b h.
      let (out, e, s) = successors-IsReached r next law a h in
      rw (e, reached) (s.sound b, s.full b),
  contains-outside r,
)
