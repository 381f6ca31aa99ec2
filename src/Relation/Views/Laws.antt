-- ===== src/Relation/Views/Laws.antt =====
-- include/dpor/model/relation.hpp, ComposeRelation and UnionRelation, against composition and
-- union.
use cpp_dpor.Prelude.{
  ℕ, ◌≤◌, ◌<◌, ◌≡◌, ◌↔◌, inl, inr, refl, ap, ◌∙◌, Bool, true, false, not, ◌&&◌, ◌||◌, List, [], ◌∷◌,
  ◌++◌, arith, ◌==◌, if◌then◌else◌, ==→eq, Bool-cases, length, get_or, set, replicate, length-set,
  length-replicate, get_or-replicate, get_or-set, elem, count, elem-count, elem-append,
}
use cpp_dpor.Errors.{ok}
use cpp_dpor.Relation.{Relation, IsRelation}
use cpp_dpor.Relation.Views.{
  emit, any_contains, all_successors, compose_contains, compose_successors, compose, union_contains,
  union_successors, relation_union,
}

-- `emit` passes on each node of the list whose flag is down, once.
count-emit :
    (n : ℕ) (flags : List Bool) (xs : List ℕ) (y : ℕ)
    → length flags ≡ n
    → ((x : ℕ) → elem x xs ≡ true → x < n)
    → count y (emit flags xs) ≡ (if elem y xs && not (get_or flags y false) then 1 else 0)
unfolding emit
count-emit n flags [] y e h = refl
count-emit n flags (x ∷ xs) y e h =
    let keep = λ (z : ℕ) (m : elem z xs ≡ true). h z (ground arith) in
    ground (
      arith,
      h x,
      get_or-set flags x y true false,
      length-set flags x true,
      count-emit n flags xs y e (λ z m. h z (ground arith)),
      count-emit n (set flags x true) xs y (length-set flags x true ∙ e)
          (λ z m. h z (ground arith)),
    )

pub emitted : ℕ → List ℕ → List ℕ
emitted n xs = emit (replicate n false) xs

count-emitted :
    (n : ℕ) (xs : List ℕ) (y : ℕ)
    → ((x : ℕ) → elem x xs ≡ true → x < n)
    → count y (emitted n xs) ≡ (if elem y xs then 1 else 0)
unfolding emitted
count-emitted n xs y h = ground (
  arith,
  count-emit n (replicate n false) xs y (length-replicate n false) h,
  get_or-replicate n y false,
)

elem-emitted :
    (n : ℕ) (xs : List ℕ) (y : ℕ)
    → ((x : ℕ) → elem x xs ≡ true → x < n)
    → elem y (emitted n xs) ≡ elem y xs
elem-emitted n xs y h = ground (arith, elem-count y (emitted n xs), count-emitted n xs y h)

module _ (left right : Relation) (next after : ℕ → List ℕ) (l : IsRelation left next)
    (r : IsRelation right after) (same : left.node_count ≡ right.node_count) where
  -- The successors of both, without repetition.
  abbrev pub either : ℕ → List ℕ
  either a = emitted left.node_count (next a ++ after a)

  either-in_range : (a b : ℕ) → elem b (next a ++ after a) ≡ true → b < left.node_count
  either-in_range a b h =
      ground (arith, elem-append b (next a) (after a), l.in_range a b, r.in_range a b)

  -- `left ∪ right` relates what one of the two relates.
  elem-either : (a b : ℕ) → elem b (either a) ≡ (elem b (next a) || elem b (after a))
  elem-either a b =
      elem-emitted left.node_count (next a ++ after a) b (either-in_range a)
      ∙ elem-append b (next a) (after a)

  count-either : (a b : ℕ) → count b (either a) ≤ 1
  count-either a b =
      ground (arith, count-emitted left.node_count (next a ++ after a) b (either-in_range a))

  relation_union-IsRelation :
      (u : Relation) × (relation_union left right ≡ ok u)
      × IsRelation u either
      × (u.node_count ≡ left.node_count)
  unfolding relation_union
  relation_union-IsRelation = (
    record {
      node_count = left.node_count;
      contains = union_contains left right;
      successors = union_successors left right;
    },
    ground arith,
    record {
      listed = λ a h. unfold union_successors emitted in ground (arith, l.listed a, r.listed a);
      outside = λ a h. unfold union_successors in ground arith;
      in_range = λ a b h. ground (arith, elem-either a b, l.in_range a b, r.in_range a b);
      member = λ a b ha hb.
          unfold union_contains in ground (arith, elem-either a b, l.member a b, r.member a b);
    },
    refl,
  )

  -- The nodes that `right` relates to the nodes of a list.
  pub through : List ℕ → List ℕ
  through [] = []
  through (x ∷ xs) = after x ++ through xs

  -- The successors by way of an intermediate node, without repetition.
  abbrev pub composed : ℕ → List ℕ
  composed a = emitted left.node_count (through (next a))

  abbrev InRange : List ℕ → Type 0
  InRange xs = (x : ℕ) → elem x xs ≡ true → x < left.node_count

  through-InRange : (xs : List ℕ) → InRange (through xs)
  unfolding through
  through-InRange [] b h = cc
  through-InRange (x ∷ xs) b h =
      ground (arith, elem-append b (after x) (through xs), through-InRange xs b, r.in_range x b)

  all_successors-through : (xs : List ℕ) → InRange xs → all_successors right xs ≡ ok (through xs)
  unfolding all_successors through
  all_successors-through [] h = refl
  all_successors-through (x ∷ xs) h =
      ground (arith, h x, r.listed x, all_successors-through xs (λ y m. h y (ground arith)))

  any_contains-through :
      (xs : List ℕ) (b : ℕ)
      → b < right.node_count
      → InRange xs
      → any_contains right b xs ≡ ok (elem b (through xs))
  unfolding any_contains through
  any_contains-through [] b lt h = refl
  any_contains-through (x ∷ xs) b lt h = ground (
    arith,
    h x,
    r.member x b,
    elem-append b (after x) (through xs),
    any_contains-through xs b lt (λ y m. h y (ground arith)),
  )

  elem-through :
      (xs : List ℕ) (b : ℕ)
      → (elem b (through xs) ≡ true) ↔ ((m : ℕ) × (elem m xs ≡ true) × (elem b (after m) ≡ true))
  unfolding through
  elem-through [] b = (λ h. cc, λ (m, h, e). cc)
  elem-through (x ∷ xs) b = (
    λ h. elim (Bool-cases (elem b (after x))) [
      | inl now ↦ (x, ground arith, now)
      | inr rest ↦
          let (m, e, f) =
            (elem-through xs b).0 (ground (arith, elem-append b (after x) (through xs))) in
          (m, ground arith, f)
    ],
    λ (m, e, f). elim (Bool-cases (x == m)) [
      | inl now ↦ ground (
        arith,
        elem-append b (after x) (through xs),
        ap (λ (k : ℕ). elem b (after k)) (==→eq x m now),
      )
      | inr rest ↦
          ground (
            arith,
            elem-append b (after x) (through xs),
            (elem-through xs b).1 (m, ground arith, f),
          )
    ],
  )

  -- `left ; right` relates two nodes exactly when some node joins them.
  elem-composed :
      (a b : ℕ)
      → (elem b (composed a) ≡ true)
        ↔ ((m : ℕ) × (elem m (next a) ≡ true) × (elem b (after m) ≡ true))
  elem-composed a b =
      rw (elem-emitted left.node_count (through (next a)) b (through-InRange (next a)))
        (elem-through (next a) b)

  compose-IsRelation :
      (c : Relation) × (compose left right ≡ ok c)
      × IsRelation c composed
      × (c.node_count ≡ left.node_count)
  unfolding compose
  compose-IsRelation =
      let same_elem =
        λ (a b : ℕ). elem-emitted left.node_count (through (next a)) b (through-InRange (next a)) in
      (
        record {
          node_count = left.node_count;
          contains = compose_contains left right;
          successors = compose_successors left right;
        },
        ground arith,
        record {
          listed = λ a h.
              unfold compose_successors emitted in
              ground (arith, l.listed a, all_successors-through (next a) (l.in_range a));
          outside = λ a h. unfold compose_successors in ground arith;
          in_range = λ a b h. ground (arith, same_elem a b, through-InRange (next a) b);
          member = λ a b ha hb.
              unfold compose_contains in
              ground (
                arith,
                same_elem a b,
                l.listed a,
                any_contains-through (next a) b (omega arith) (l.in_range a),
              );
        },
        refl,
      )

  -- Of two lawful relations over the same nodes, compose builds without a throw a lawful relation
  -- over these nodes, which relates a to b exactly when the first one relates a to some node that
  -- the second one relates to b.
  pub compose_lem :
      (c : Relation) × (compose left right ≡ ok c)
      × (c.node_count ≡ left.node_count)
      × IsRelation c composed
      × ((a b : ℕ)
          → (elem b (composed a) ≡ true)
            ↔ ((m : ℕ) × (elem m (next a) ≡ true) × (elem b (after m) ≡ true)))
  compose_lem = let (c, e, law, n) = compose-IsRelation in (c, e, n, law, elem-composed)

  -- Of two lawful relations over the same nodes, relation_union builds without a throw a lawful
  -- relation over these nodes, which lists no node twice and relates a to b exactly when one of
  -- the two does.
  pub relation_union_lem :
      (u : Relation) × (relation_union left right ≡ ok u)
      × (u.node_count ≡ left.node_count)
      × IsRelation u either
      × ((a b : ℕ) → elem b (either a) ≡ (elem b (next a) || elem b (after a)))
      × ((a b : ℕ) → count b (either a) ≤ 1)
  relation_union_lem =
      let (u, e, law, n) = relation_union-IsRelation in (u, e, n, law, elem-either, count-either)
