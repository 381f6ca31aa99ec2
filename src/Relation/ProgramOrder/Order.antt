-- ===== src/Relation/ProgramOrder/Order.antt =====
-- include/dpor/model/relation.hpp, ProgramOrderRelation, against the order of the thread
-- sequences.
use cpp_dpor.Prelude.{
  ℕ, zero, suc, ◌+◌, ◌-◌, ◌≤◌, ◌<◌, ◌≡◌, ◌↔◌, inl, inr, refl, sym, ap, ◌∙◌, Bool, true, ◌&&◌, List,
  [], ◌∷◌, some, arith, ltb, Option-cases, bool_ext, get_elem?, get_or, elem, elem-count,
  elem_of_get_elem?, get_elem?_of_elem,
}
use mathlib.Core.Path.{subst}
use cpp_dpor.Errors.{ok}
use cpp_dpor.Relation.{IsRelation}
use cpp_dpor.Relation.ProgramOrder.{
  ProgramOrderRelation, blank, program_order, thread_at, position_at, same_thread, contains, drop,
  later, successors, to_relation,
}
use cpp_dpor.Relation.ProgramOrder.Laws.{
  IsIndex, total, from, joined, IsIndex-same, enter_threads_lem, blank-IsIndex, from-get_or,
}

-- Every event of the sequences is a node, and stands in them once.
pub record IsPartition (n : ℕ) (threads : List (List ℕ)) : Type 0 where
  pub nodes : (e : ℕ) → 0 < total e threads → e < n
  pub once : (e : ℕ) → total e threads ≤ 1

-- `a` stands before `b` in the sequence of some thread.
pub record Before (threads : List (List ℕ)) (a b : ℕ) : Type 0 where
  pub thread : ℕ
  pub first : ℕ
  pub second : ℕ
  pub ordered : first < second
  pub first_at : get_elem? (get_or threads thread []) first ≡ some a
  pub second_at : get_elem? (get_or threads thread []) second ≡ some b

get_elem?-drop : (m : ℕ) (xs : List ℕ) (q : ℕ) → get_elem? (drop m xs) q ≡ get_elem? xs (m + q)
get_elem?-drop zero xs q = ap (get_elem? xs) (omega arith)
get_elem?-drop (suc m) [] q = refl
get_elem?-drop (suc m) (x ∷ xs) q =
    let step : suc m + q ≡ suc (m + q) = omega arith in rw step (get_elem?-drop m xs q)

module _ (n : ℕ) (threads : List (List ℕ)) (r : ProgramOrderRelation) where
  -- The tables of the relation are the index of its sequences.
  record IsBuilt : Type 0 where
    size : r.node_count ≡ n
    events : r.thread_events ≡ threads
    index :
        IsIndex n
          (record { thread_of = r.thread_of; position_in_thread = r.position_in_thread })
          (λ k. get_or threads k [])

  module _ (v : IsBuilt) (parts : IsPartition n threads) where
    later-Before : (a b : ℕ) → elem b (later r a) ≡ true → Before threads a b
    unfolding later
    later-Before a b h = elim (Option-cases (thread_at r a)) [
      | inl none_at ↦ cc (rw (none_at, later) at h)
      | inr (k, owner) ↦
          let h' = (rw (owner, later, v.events) at h) in
          let (q, g) =
            get_elem?_of_elem (drop (suc (position_at r a)) (get_or threads k [])) b h' in
          record {
            thread = k;
            first = position_at r a;
            second = suc (position_at r a) + q;
            ordered = omega arith;
            first_at = v.index.back a k owner;
            second_at = sym (get_elem?-drop (suc (position_at r a)) (get_or threads k []) q) ∙ g;
          }
    ]

    Before-later : (a b : ℕ) → Before threads a b → elem b (later r a) ≡ true
    unfolding later
    Before-later a b o =
        let (own, place) = v.index.forth o.thread o.first a o.first_at in
        let q = o.second - suc (position_at r a) in
        let at_q : get_elem? (drop (suc (position_at r a)) (get_or threads o.thread [])) q
            ≡ some b =
          get_elem?-drop (suc (position_at r a)) (get_or threads o.thread []) q
          ∙ rw (let e : suc (position_at r a) + q ≡ o.second = omega (arith, o.ordered, place) in e)
              o.second_at in
        rw (own, later, v.events) (elem_of_get_elem? _ q b at_q)

    in_order : ℕ → ℕ → Bool
    unfolding same_thread
    in_order a b =
        same_thread (thread_at r a) (thread_at r b) && ltb (position_at r a) (position_at r b)

    in_order-Before : (a b : ℕ) → in_order a b ≡ true → Before threads a b
    unfolding in_order
    in_order-Before a b h = elim (Option-cases (thread_at r a)) [
      | inl none_at ↦ ground arith
      | inr (k, owner) ↦
          let owner' : thread_at r b ≡ some k = ground arith in
          record {
            thread = k;
            first = position_at r a;
            second = position_at r b;
            ordered = ground arith;
            first_at = v.index.back a k owner;
            second_at = v.index.back b k owner';
          }
    ]

    Before-in_order : (a b : ℕ) → Before threads a b → in_order a b ≡ true
    unfolding in_order
    Before-in_order a b o =
        let (own, place) = v.index.forth o.thread o.first a o.first_at in
        let (own', place') = v.index.forth o.thread o.second b o.second_at in
        ground (arith, o.ordered)

    later-in_order : (a b : ℕ) → in_order a b ≡ elem b (later r a)
    later-in_order a b = bool_ext (in_order a b) (elem b (later r a)) (
      λ h. Before-later a b (in_order-Before a b h),
      λ h. Before-in_order a b (later-Before a b h),
    )

    total-at : (ts : List (List ℕ)) (k e : ℕ) → elem e (get_or ts k []) ≡ true → 0 < total e ts
    total-at [] k e h = cc
    total-at (es ∷ ts) zero e h = ground (arith, elem-count e es)
    total-at (es ∷ ts) (suc k) e h = omega (arith, total-at ts k e h)

    -- The relation is lawful, with the events that stand later in the thread for successors.
    built-IsRelation : IsRelation (to_relation r) (later r)
    unfolding to_relation
    built-IsRelation = record {
      listed = λ a h. unfold successors in ground arith;
      outside = λ a h. unfold successors in ground arith;
      in_range = λ a b h.
          let o = later-Before a b h in
          omega (
            arith,
            v.size,
            parts.nodes b
                (total-at threads o.thread b (elem_of_get_elem? _ o.second b o.second_at)),
          );
      member = λ a b ha hb. unfold contains in_order in ground (arith, later-in_order a b);
    }

-- For sequences in which nodes only stand, and none twice, the constructor of ProgramOrderRelation
-- throws nothing; it builds a lawful relation over the nodes, which holds between two of them
-- exactly when the first stands before the second in the sequence of some thread.
pub program_order_lem :
    (n : ℕ) (threads : List (List ℕ))
    → IsPartition n threads
    → (r : ProgramOrderRelation) × (program_order n threads ≡ ok r)
      × (r.node_count ≡ n)
      × IsRelation (to_relation r) (later r)
      × ((a b : ℕ) → (elem b (later r a) ≡ true) ↔ Before threads a b)
unfolding program_order
program_order_lem n threads parts =
    let (t, e, v) =
      enter_threads_lem n 0 (blank n) (λ j. []) threads (blank-IsIndex n) (λ j h. refl)
        (λ x h. (parts.nodes x h, λ j. refl)) parts.once in
    let r : ProgramOrderRelation = record {
      node_count = n;
      thread_events = threads;
      thread_of = t.thread_of;
      position_in_thread = t.position_in_thread;
    } in
    let built : IsBuilt n threads r = record {
      size = refl;
      events = refl;
      index =
          IsIndex-same n t (joined (λ j. []) 0 threads) (λ k. get_or threads k []) v
            (λ k.
              subst (λ j. from 0 threads j ≡ get_or threads k []) (omega arith)
                (from-get_or 0 threads k));
    } in
    (
      r,
      rw e refl,
      refl,
      built-IsRelation n threads r built parts,
      λ a b. (later-Before n threads r built parts a b, Before-later n threads r built parts a b),
    )
