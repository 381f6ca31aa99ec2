-- ===== src/Examples/Relations.antt =====
-- The theorems on include/dpor/model/relation.hpp at a relation of three nodes, 0 → 1 → 2.
use cpp_dpor.Prelude.{
  ℕ, zero, suc, ◌≤◌, ◌<◌, ◌≡◌, ◌↔◌, ◌⊎◌, refl, true, ◌&&◌, ◌||◌, List, [], ◌∷◌, arith, ◌==◌, length,
  elem, count,
}
use cpp_dpor.Errors.{ok, throw, precondition_error}
use cpp_dpor.Relation.{Relation, IsRelation}
use cpp_dpor.Relation.Explicit.{
  ExplicitRelation, targets, IsValid, add_edge, add_edge_lem, to_relation, to_relation-IsRelation,
}
use cpp_dpor.Relation.Closure
use cpp_dpor.Relation.Closure.{transitive_closure}
use cpp_dpor.Relation.Closure.Correct.{
  Joined, IsReached, successors-IsReached, reached, transitive_closure-IsRelation,
}
use cpp_dpor.Relation.Views.{compose, relation_union}
use cpp_dpor.Relation.Views.Laws.{either, composed, compose_lem, relation_union_lem}
use cpp_dpor.Relation.ProgramOrder.{ProgramOrderRelation, program_order, later}
use cpp_dpor.Relation.ProgramOrder
use cpp_dpor.Relation.ProgramOrder.Order.{IsPartition, Before, program_order_lem}

abbrev line : ExplicitRelation
line = record { lists = (1 ∷ []) ∷ (2 ∷ []) ∷ [] ∷ [] }

line-in_range : (a b : ℕ) → elem b (targets line a) ≡ true → b < 3
line-in_range zero b h = ground arith
line-in_range (suc zero) b h = ground arith
line-in_range (suc (suc zero)) b h = cc
line-in_range (suc (suc (suc a))) b h = cc

line-IsValid : IsValid line
line-IsValid = record { in_range = line-in_range }

abbrev chain : Relation
chain = to_relation line

chain-IsRelation : IsRelation chain (targets line)
chain-IsRelation = to_relation-IsRelation line line-IsValid

add_edge_lem_example :
    (r : ExplicitRelation) × (add_edge line 2 0 ≡ ok r)
    × IsValid r
    × (length r.lists ≡ length line.lists)
    × ((x y : ℕ) → elem y (targets r x) ≡ (elem y (targets line x) || (x == 2 && y == 0)))
add_edge_lem_example = add_edge_lem line 2 0 line-IsValid (omega arith) (omega arith)

nodes : chain.node_count ≡ 3
unfolding to_relation
nodes = refl

successors-IsReached_example :
    (out : List ℕ) × (Closure.successors chain 0 ≡ ok out) × IsReached (targets line) 0 out
successors-IsReached_example =
    successors-IsReached chain (targets line) chain-IsRelation 0 (omega (arith, nodes))

transitive_closure-IsRelation_example :
    IsRelation (transitive_closure chain) (reached chain)
    × ((a b : ℕ)
        → a < chain.node_count
        → (elem b (reached chain a) ≡ true) ↔ Joined (targets line) a b)
    × ((a b : ℕ)
        → (chain.node_count ≤ a) ⊎ (chain.node_count ≤ b)
        → (transitive_closure chain).contains a b ≡ throw precondition_error)
transitive_closure-IsRelation_example =
    transitive_closure-IsRelation chain (targets line) chain-IsRelation

abbrev twice : ℕ → List ℕ
twice = composed chain chain (targets line) (targets line) chain-IsRelation chain-IsRelation refl

compose_lem_example :
    (c : Relation) × (compose chain chain ≡ ok c)
    × (c.node_count ≡ chain.node_count)
    × IsRelation c twice
    × ((a b : ℕ)
        → (elem b (twice a) ≡ true)
          ↔ ((m : ℕ) × (elem m (targets line a) ≡ true) × (elem b (targets line m) ≡ true)))
compose_lem_example =
    compose_lem chain chain (targets line) (targets line) chain-IsRelation chain-IsRelation refl

abbrev back : ExplicitRelation
back = record { lists = [] ∷ (0 ∷ []) ∷ (1 ∷ []) ∷ [] }

back-in_range : (a b : ℕ) → elem b (targets back a) ≡ true → b < 3
back-in_range zero b h = cc
back-in_range (suc zero) b h = ground arith
back-in_range (suc (suc zero)) b h = ground arith
back-in_range (suc (suc (suc a))) b h = cc

reverse_chain-IsRelation : IsRelation (to_relation back) (targets back)
reverse_chain-IsRelation = to_relation-IsRelation back (record { in_range = back-in_range })

as_many : chain.node_count ≡ (to_relation back).node_count
unfolding to_relation
as_many = refl

abbrev both : ℕ → List ℕ
both =
    either chain (to_relation back) (targets line) (targets back) chain-IsRelation
      reverse_chain-IsRelation as_many

relation_union_lem_example :
    (u : Relation) × (relation_union chain (to_relation back) ≡ ok u)
    × (u.node_count ≡ chain.node_count)
    × IsRelation u both
    × ((a b : ℕ) → elem b (both a) ≡ (elem b (targets line a) || elem b (targets back a)))
    × ((a b : ℕ) → count b (both a) ≤ 1)
relation_union_lem_example =
    relation_union_lem chain (to_relation back) (targets line) (targets back) chain-IsRelation
      reverse_chain-IsRelation as_many

abbrev two_threads : List (List ℕ)
two_threads = (0 ∷ 2 ∷ []) ∷ (1 ∷ []) ∷ []

two_threads-IsPartition : IsPartition 3 two_threads
two_threads-IsPartition = record { nodes = λ e h. ground arith; once = λ e. ground arith }

program_order_lem_example :
    (r : ProgramOrderRelation) × (program_order 3 two_threads ≡ ok r)
    × (r.node_count ≡ 3)
    × IsRelation (ProgramOrder.to_relation r) (later r)
    × ((a b : ℕ) → (elem b (later r a) ≡ true) ↔ Before two_threads a b)
program_order_lem_example = program_order_lem 3 two_threads two_threads-IsPartition
