-- ===== src/Graph/ThreadOrder/Correct.antt =====
-- include/dpor/model/execution_graph.hpp, po_relation, against the order of insertion within each
-- thread.
use cpp_dpor.Prelude.{
  ℕ, zero, suc, ◌+◌, ◌-◌, ◌<◌, ◌≡◌, ◌↔◌, inl, inr, refl, sym, ap, ◌∙◌, true, List, [], ◌∷◌, some,
  arith, ltb, ltb→lt, Bool-cases, length, get_elem?, get_or, elem, elem_of_get_elem?,
  get_elem?_of_elem,
}
use mathlib.Core.Path.{subst}
use cpp_dpor.Errors.{ok}
use cpp_dpor.Event.{Event}
use cpp_dpor.Graph.{ExecutionGraph, ids_where}
use cpp_dpor.Graph.WellFormed.{IsWellFormed}
use cpp_dpor.Graph.ThreadOrder.{
  buckets, index_at, check_after, collect, derive_thread_event_sequences, po_relation,
}
use cpp_dpor.Graph.ThreadOrder.Ids.{Passes, ids_where-Passes, Passes-ids_where, ids_where-ascends}
use cpp_dpor.Graph.ThreadOrder.Buckets.{of_thread, get_or-buckets, total-buckets}
use cpp_dpor.Relation.{IsRelation}
use cpp_dpor.Relation.ProgramOrder.{ProgramOrderRelation, later, to_relation}
use cpp_dpor.Relation.ProgramOrder.Laws.{total}
use cpp_dpor.Relation.ProgramOrder.Order.{IsPartition, Before, program_order_lem}

nonempty : List (List ℕ) → List (List ℕ)
nonempty [] = []
nonempty ([] ∷ bs) = nonempty bs
nonempty ((x ∷ xs) ∷ bs) = (x ∷ xs) ∷ nonempty bs

total-nonempty : (e : ℕ) (bs : List (List ℕ)) → total e (nonempty bs) ≡ total e bs
unfolding nonempty
total-nonempty e [] = refl
total-nonempty e ([] ∷ bs) = omega (arith, total-nonempty e bs)
total-nonempty e ((x ∷ xs) ∷ bs) = omega (arith, total-nonempty e bs)

nonempty-of : (bs : List (List ℕ)) (k : ℕ) → (j : ℕ) × (get_or bs j [] ≡ get_or (nonempty bs) k [])
unfolding nonempty
nonempty-of [] k = (0, refl)
nonempty-of ([] ∷ bs) k = let (j, e) = nonempty-of bs k in (suc j, e)
nonempty-of ((x ∷ xs) ∷ bs) zero = (0, refl)
nonempty-of ((x ∷ xs) ∷ bs) (suc k) = let (j, e) = nonempty-of bs k in (suc j, e)

of-nonempty :
    (bs : List (List ℕ)) (k p x : ℕ)
    → get_elem? (get_or bs k []) p ≡ some x
    → (j : ℕ) × (get_or (nonempty bs) j [] ≡ get_or bs k [])
unfolding nonempty
of-nonempty [] k p x h = cc
of-nonempty ([] ∷ bs) zero p x h = cc
of-nonempty ([] ∷ bs) (suc k) p x h = of-nonempty bs k p x h
of-nonempty ((y ∷ ys) ∷ bs) zero p x h = (0, refl)
of-nonempty ((y ∷ ys) ∷ bs) (suc k) p x h = let (j, e) = of-nonempty bs k p x h in (suc j, e)

module _ {ℓ} {V : Type ℓ} where
  Increasing : List (Event V) → List ℕ → Type 0
  Increasing events ids =
      (p q x y : ℕ)
      → p < q
      → get_elem? ids p ≡ some x
      → get_elem? ids q ≡ some y
      → index_at events x < index_at events y

  check_after-ok :
      (events : List (Event V)) (x : ℕ) (ids : List ℕ)
      → Increasing events (x ∷ ids)
      → check_after events x ids ≡ ok tt
  unfolding check_after Increasing
  check_after-ok events x [] h = refl
  check_after-ok events x (y ∷ ids) h =
      let up = h 0 1 x y (omega arith) refl refl in
      ground (
        arith,
        check_after-ok events y ids (λ p q a b o k l. h (suc p) (suc q) a b (omega arith) k l),
      )

  collect-ok :
      (events : List (Event V)) (bs : List (List ℕ))
      → ((t : ℕ) → Increasing events (get_or bs t []))
      → collect events bs ≡ ok (nonempty bs)
  unfolding collect nonempty
  collect-ok events [] h = refl
  collect-ok events ([] ∷ bs) h = collect-ok events bs (λ t. h (suc t))
  collect-ok events ((x ∷ xs) ∷ bs) h =
      ground (arith, check_after-ok events x xs (h 0), collect-ok events bs (λ t. h (suc t)))

  -- `a` and `b` are events of one thread, `a` inserted before `b`.
  pub record InProgramOrder (g : ExecutionGraph V) (a b : ℕ) : Type ℓ where
    pub ordered : a < b
    pub first : Event V
    pub second : Event V
    pub first_at : get_elem? g.events a ≡ some first
    pub second_at : get_elem? g.events b ≡ some second
    pub together : first.thread ≡ second.thread

  module _ (g : ExecutionGraph V) (v : IsWellFormed g) where
    bs : List (List ℕ)
    bs = buckets 0 g.events []

    bucket : (t : ℕ) → get_or bs t [] ≡ ids_where (of_thread t) 0 g.events
    unfolding bs
    bucket t = get_or-buckets 0 g.events [] t

    member : (t p x : ℕ) → get_elem? (get_or bs t []) p ≡ some x → Passes (of_thread t) 0 g.events x
    member t p x h =
        ids_where-Passes (of_thread t) 0 g.events x (elem_of_get_elem? _ p x (rw (bucket t) at h))

    found_at :
        (t x : ℕ) (m : Passes (of_thread t) 0 g.events x) → get_elem? g.events x ≡ some m.event
    found_at t x m =
        let e : x - 0 ≡ x = omega arith in subst (λ k. get_elem? g.events k ≡ some m.event) e m.at

    bucket-Increasing : (t : ℕ) → Increasing g.events (get_or bs t [])
    unfolding Increasing
    bucket-Increasing t p q x y o h k =
        let m = member t p x h in
        let n = member t q y k in
        let below =
          v.increasing x y m.event n.event
            (ids_where-ascends (of_thread t) 0 g.events p q x y o (rw (bucket t) at h)
              (rw (bucket t) at k))
            (found_at t x m) (found_at t y n) (ground (arith, m.passed, n.passed)) in
        rw (found_at t x m, index_at) (rw (found_at t y n, index_at) below)

    derived : derive_thread_event_sequences g ≡ ok (nonempty bs)
    unfolding derive_thread_event_sequences bs
    derived = collect-ok g.events bs bucket-Increasing

    partition : IsPartition (length g.events) (nonempty bs)
    partition = record {
      nodes =
          λ e h. unfold bs in ground (arith, total-nonempty e bs, total-buckets 0 g.events [] e);
      once = λ e. unfold bs in ground (arith, total-nonempty e bs, total-buckets 0 g.events [] e);
    }

    Before-InProgramOrder : (a b : ℕ) → Before (nonempty bs) a b → InProgramOrder g a b
    Before-InProgramOrder a b o =
        let (t, e) = nonempty-of bs o.thread in
        let h : get_elem? (get_or bs t []) o.first ≡ some a = rw e o.first_at in
        let k : get_elem? (get_or bs t []) o.second ≡ some b = rw e o.second_at in
        let m = member t o.first a h in
        let n = member t o.second b k in
        record {
          ordered =
              ids_where-ascends (of_thread t) 0 g.events o.first o.second a b o.ordered
                (rw (bucket t) at h) (rw (bucket t) at k);
          first = m.event;
          second = n.event;
          first_at = found_at t a m;
          second_at = found_at t b n;
          together = ground (arith, m.passed, n.passed);
        }

    bucketed :
        (t x : ℕ) (e : Event V)
        → get_elem? g.events x ≡ some e
        → e.thread ≡ t
        → (p : ℕ) × (get_elem? (ids_where (of_thread t) 0 g.events) p ≡ some x)
    bucketed t x e h same =
        let shift : 0 + x ≡ x = omega arith in
        let stands = Passes-ids_where (of_thread t) 0 g.events x e h (ground arith) in
        get_elem?_of_elem (ids_where (of_thread t) 0 g.events) x
          (subst (λ k. elem k (ids_where (of_thread t) 0 g.events) ≡ true) shift stands)

    -- Positions in a bucket are in the order of the ids.
    positions-lt :
        (t p q a b : ℕ)
        → a < b
        → get_elem? (ids_where (of_thread t) 0 g.events) p ≡ some a
        → get_elem? (ids_where (of_thread t) 0 g.events) q ≡ some b
        → p < q
    positions-lt t p q a b o h k = elim (Bool-cases (ltb p q)) [
      | inl less ↦ ltb→lt p q less
      | inr more ↦ elim (Bool-cases (ltb q p)) [
        | inl greater ↦
            let back =
              ids_where-ascends (of_thread t) 0 g.events q p b a (ltb→lt q p greater) k h in
            absurd (omega arith)
        | inr same ↦
            let e : p ≡ q = ground arith in
            let f : some a ≡ some b =
              sym h ∙ (ap (get_elem? (ids_where (of_thread t) 0 g.events)) e ∙ k) in
            absurd (ground arith)
      ]
    ]

    InProgramOrder-Before : (a b : ℕ) → InProgramOrder g a b → Before (nonempty bs) a b
    InProgramOrder-Before a b o =
        let t : ℕ = o.first.thread in
        let (p, h) = bucketed t a o.first o.first_at refl in
        let (q, k) = bucketed t b o.second o.second_at (sym o.together) in
        let h' : get_elem? (get_or bs t []) p ≡ some a = rw (bucket t) h in
        let (j, e) = of-nonempty bs t p a h' in
        record {
          thread = j;
          first = p;
          second = q;
          ordered = positions-lt t p q a b o.ordered h k;
          first_at = rw e h';
          second_at = rw e (rw (bucket t) k);
        }

-- On a well-formed graph po_relation throws nothing; it builds a lawful relation over the events,
-- which holds between two ids exactly when they are events of one thread, inserted in that order.
pub po_relation_lem {ℓ} :
    {V : Type ℓ} (g : ExecutionGraph V)
    → IsWellFormed g
    → (r : ProgramOrderRelation) × (po_relation g ≡ ok r)
      × (r.node_count ≡ length g.events)
      × IsRelation (to_relation r) (later r)
      × ((a b : ℕ) → (elem b (later r a) ≡ true) ↔ InProgramOrder g a b)
unfolding po_relation
po_relation_lem g v =
    let (r, e, n, law, order) =
      program_order_lem (length g.events) (nonempty (bs g v)) (partition g v) in
    (
      r,
      rw (derived g v) e,
      n,
      law,
      λ a b. (
        λ h. Before-InProgramOrder g v a b ((order a b).0 h),
        λ o. (order a b).1 (InProgramOrder-Before g v a b o),
      ),
    )
