-- ===== src/Relation/Explicit.antt =====
-- include/dpor/model/relation.hpp, ExplicitRelation: adjacency lists.
use cpp_dpor.Prelude.{
  ℕ, ◌<◌, ◌≡◌, inl, inr, refl, Bool, true, false, ◌&&◌, ◌||◌, List, [], ◌∷◌, ◌++◌, arith, ltb, ◌==◌,
  if◌then◌else◌, Bool-cases, length, get_or, set, replicate, length-set, get_or-replicate,
  get_or-set, elem, elem-append,
}
use cpp_dpor.Errors.{Result, ok, ◌>>◌}
use cpp_dpor.Relation.{Relation, IsRelation, validate_node}

pub record ExplicitRelation : Type 0 where
  pub lists : List (List ℕ)

pub explicit : ℕ → ExplicitRelation
explicit node_count = record { lists = replicate node_count [] }

abbrev pub targets : ExplicitRelation → ℕ → List ℕ
targets r a = get_or r.lists a []

pub add_edge : ExplicitRelation → ℕ → ℕ → Result ExplicitRelation
add_edge r a b = do
  validate_node (length r.lists) a
  validate_node (length r.lists) b
  ok (if elem b (targets r a) then r else record { lists = set r.lists a (targets r a ++ b ∷ []) })

pub contains : ExplicitRelation → ℕ → ℕ → Result Bool
contains r a b =
    ok (if ltb a (length r.lists) && ltb b (length r.lists) then elem b (targets r a) else false)

pub successors : ExplicitRelation → ℕ → Result (List ℕ)
successors r a = do validate_node (length r.lists) a; ok (targets r a)

unfoldable pub to_relation : ExplicitRelation → Relation
unfolding contains successors
to_relation r = record {
  node_count = length r.lists;
  contains = contains r;
  successors = successors r;
}

-- Edges lead to nodes.
pub record IsValid (r : ExplicitRelation) : Type 0 where
  pub in_range : (a b : ℕ) → elem b (targets r a) ≡ true → b < length r.lists

explicit-IsValid : (n : ℕ) → IsValid (explicit n)
unfolding explicit
explicit-IsValid n = record { in_range = λ a b h. cc (get_or-replicate {A = List ℕ} n a []) }

-- In an explicit relation whose edges lead to nodes, add_edge between two nodes succeeds and adds
-- that edge and no other; the edges still lead to nodes, and the nodes stay as many.
pub add_edge_lem :
    (r : ExplicitRelation) (a b : ℕ)
    → IsValid r
    → a < length r.lists
    → b < length r.lists
    → (r' : ExplicitRelation) × (add_edge r a b ≡ ok r')
      × IsValid r'
      × (length r'.lists ≡ length r.lists)
      × ((x y : ℕ) → elem y (targets r' x) ≡ (elem y (targets r x) || (x == a && y == b)))
unfolding add_edge
add_edge_lem r a b v ha hb = elim (Bool-cases (elem b (targets r a))) [
  | inl old ↦ (r, ground arith, v, refl, λ x y. ground arith)
  | inr new ↦
      let lists' = set r.lists a (targets r a ++ b ∷ []) in
      let edges : (x y : ℕ)
          → elem y (get_or lists' x []) ≡ (elem y (targets r x) || (x == a && y == b)) =
        λ x y. ground (
          arith,
          get_or-set r.lists a x (targets r a ++ b ∷ []) [],
          elem-append y (targets r a) (b ∷ []),
        ) in
      (
        record { lists = lists' },
        ground arith,
        record {
          in_range = λ x y h.
              ground
                (arith, edges x y, v.in_range x y, length-set r.lists a (targets r a ++ b ∷ []));
        },
        length-set r.lists a (targets r a ++ b ∷ []),
        edges,
      )
]

pub to_relation-IsRelation :
    (r : ExplicitRelation) → IsValid r → IsRelation (to_relation r) (targets r)
unfolding to_relation
to_relation-IsRelation r v = record {
  listed = λ a h. ground arith;
  outside = λ a h. ground arith;
  in_range = v.in_range;
  member = λ a b ha hb. ground arith;
}
