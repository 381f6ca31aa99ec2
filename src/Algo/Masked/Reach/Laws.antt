-- ===== src/Algo/Masked/Reach/Laws.antt =====
-- include/dpor/algo/dpor.hpp, MaskedPorfContext::reachable_from: the traversal.
use cpp_dpor.Prelude.{
  ℕ, zero, suc, ◌+◌, ◌*◌, ◌≤◌, ◌<◌, ◌≡◌, ◌↔◌, inl, inr, refl, ap, ◌∙◌, Bool, true, false, ◌||◌,
  List, [], ◌∷◌, ◌++◌, arith, ltb, ◌==◌, lt→ltb, ==_refl, ==→eq, Bool-cases, length, set, replicate,
  length-append, length-set, length-replicate, get_or-replicate, get_or-set, elem, elem-append,
}
use mathlib.Core.Path.{subst}
use native.Mathlib.Nat.{suc-mul}
use cpp_dpor.Errors.{ok}
use cpp_dpor.Relation.Closure.Search.{
  marked, unseen, unseen-set, unseen-replicate, Walk, here, step, Walk-on,
}
use cpp_dpor.Graph.{is_valid_event_id}
use cpp_dpor.Exploration.{ExplorationGraph, event_count}
use cpp_dpor.Algo.Masked.{MaskedPorfContext, keeps, reset, successors_of}
use cpp_dpor.Algo.Masked.Bounds.{successors_of-lt, length-successors_of, kept_event-lt}
use cpp_dpor.Algo.Masked.Reach.{search, reachable_from, fuel_for}

-- What a search with nodes pending and flags up ends with.
pub record Searched (next : ℕ → List ℕ) (pending : List ℕ) (flags flags' : List Bool) : Type 0 where
  pub size : length flags' ≡ length flags
  pub kept : (y : ℕ) → marked flags y ≡ true → marked flags' y ≡ true
  pub covers : (y : ℕ) → elem y pending ≡ true → marked flags' y ≡ true
  pub closed :
      (x y : ℕ)
      → marked flags' x ≡ true
      → elem y (next x) ≡ true
      → (marked flags x || marked flags' y) ≡ true
  pub sound :
      (y : ℕ)
      → marked flags' y ≡ true
      → marked flags y ≡ false
      → (p : ℕ) × (elem p pending ≡ true) × Walk next p y

module _ (next : ℕ → List ℕ) (n k : ℕ) (few : (x : ℕ) → length (next x) ≤ k)
    (in_range : (x y : ℕ) → elem y (next x) ≡ true → y < n) where
  -- The budget left after a node was marked and its successors were put behind the others.
  budget :
      (x u v : ℕ) (pending : List ℕ) (fuel : ℕ)
      → suc u ≡ v
      → length pending + 1 + v * k ≤ suc fuel
      → length (pending ++ next x) + u * k ≤ fuel
  budget x u v pending fuel e h =
      omega (arith, length-append pending (next x), few x, suc-mul u k, ap (λ (m : ℕ). m * k) e)

  skip :
      {x : ℕ} {pending : List ℕ} {flags flags' : List Bool}
      → marked flags x ≡ true
      → Searched next pending flags flags'
      → Searched next (x ∷ pending) flags flags'
  skip {x} seen s = record {
    size = s.size;
    kept = s.kept;
    covers = λ y h. ground (arith, s.covers y, s.kept y, ==→eq x y);
    closed = s.closed;
    sound = λ y h new. let (p, e, w) = s.sound y h new in (p, ground arith, w);
  }

  visit :
      {x : ℕ} {pending : List ℕ} {flags flags' : List Bool}
      → x < length flags
      → marked flags x ≡ false
      → Searched next (pending ++ next x) (set flags x true) flags'
      → Searched next (x ∷ pending) flags flags'
  visit {x} {pending} {flags} {flags'} lt new s =
      let flag = λ (y : ℕ). get_or-set flags x y true false lt in
      let todo = λ (y : ℕ). elem-append y pending (next x) in
      record {
        size = s.size ∙ length-set flags x true;
        kept = λ y h. s.kept y (ground (arith, flag y));
        covers = λ y h. ground (arith, s.covers y, s.kept y, flag y, todo y, ==→eq x y);
        closed = λ z y h e. ground (arith, s.closed z y, s.covers y, flag z, todo y, ==→eq x z);
        sound = λ y h fresh. elim (Bool-cases (x == y)) [
          | inl e ↦ (x, ground arith, subst (Walk next x) (==→eq x y e) here)
          | inr e ↦
              let (p, m, w) = s.sound y h (ground (arith, flag y)) in
              elim (Bool-cases (elem p pending)) [
                | inl old ↦ (p, ground arith, w)
                | inr from_x ↦ (x, ground arith, Walk-on (ground (arith, todo p)) w)
              ]
        ];
      }

  -- With fuel for the nodes that are pending and for `k` of each that is not marked the search ends.
  pub search_lem :
      (fuel : ℕ) (pending : List ℕ) (flags : List Bool)
      → length flags ≡ n
      → ((y : ℕ) → elem y pending ≡ true → y < n)
      → length pending + unseen flags * k ≤ fuel
      → (flags' : List Bool) × (search next fuel pending flags ≡ ok flags')
        × Searched next pending flags flags'
  unfolding search
  search_lem fuel [] flags size h enough = (
    flags,
    refl,
    record {
      size = refl;
      kept = λ y e. e;
      covers = λ y e. cc;
      closed = λ x y e m. ground arith;
      sound = λ y e m. cc;
    },
  )
  search_lem zero (x ∷ pending) flags size h enough = absurd (omega arith)
  search_lem (suc fuel) (x ∷ pending) flags size h enough = elim (Bool-cases (marked flags x)) [
    | inl seen ↦
        let (flags', e, s) =
          search_lem fuel pending flags size (λ y m. h y (ground arith)) (omega arith) in
        (flags', rw (seen, search) e, skip seen s)
    | inr new ↦
        let lt : x < length flags = omega (arith, size, h x (ground (arith, ==_refl x))) in
        let (flags', e, s) =
          search_lem fuel (pending ++ next x) (set flags x true) (length-set flags x true ∙ size)
            (λ y m. ground (arith, elem-append y pending (next x), h y, in_range x y))
            (budget x (unseen (set flags x true)) (unseen flags) pending fuel
              (unseen-set flags x lt new) (omega arith)) in
        (flags', rw (new, search) e, visit lt new s)
  ]

  reaches :
      (p : ℕ) {pending : List ℕ} {none_up : List Bool} (flags : List Bool) {b : ℕ}
      → Searched next pending none_up flags
      → ((y : ℕ) → marked none_up y ≡ false)
      → Walk next p b
      → marked flags p ≡ true
      → marked flags b ≡ true
  reaches p flags s fresh here h = h
  reaches p flags s fresh (step {b} {c} w e) h =
      ground (arith, s.closed b c (reaches p flags s fresh w h) e, fresh b)

  -- The search from the successors of a node, with nothing marked yet and fuel for it all, ends. It
  -- marks the nodes to which a walk of one step or more leads, and no other.
  pub search-Walk :
      (a fuel : ℕ)
      → (n + 1) * k ≤ fuel
      → (flags : List Bool) × (search next fuel (next a) (replicate n false) ≡ ok flags)
        × ((b : ℕ) → (marked flags b ≡ true) ↔ ((p : ℕ) × (elem p (next a) ≡ true) × Walk next p b))
  search-Walk a fuel enough =
      let start : List Bool = replicate n false in
      let (flags, e, s) =
        search_lem fuel (next a) start (length-replicate n false) (in_range a)
          (omega (arith, few a, suc-mul n k, ap (λ (m : ℕ). m * k) (unseen-replicate n))) in
      let fresh = λ (y : ℕ). get_or-replicate n y false in
      (
        flags,
        e,
        λ b. (λ h. s.sound b h (fresh b), λ (p, m, w). reaches p flags s fresh w (s.covers p m)),
      )

module _ {ℓ} {V : Type ℓ} (g : ExplorationGraph V) (mask : List Bool) (fifo : Bool)
    (m : MaskedPorfContext) (made : reset g mask fifo ≡ ok m) where
  -- In a context that reset built, reachable_from of a kept event returns: its fuel is enough and
  -- no id is out of range. It marks exactly the events to which one step or more of the context
  -- lead.
  pub reachable_from_lem :
      (from : ℕ)
      → keeps mask from ≡ true
      → (flags : List Bool) × (reachable_from g mask m from ≡ ok flags)
        × ((b : ℕ)
            → (marked flags b ≡ true)
              ↔ ((p : ℕ) × (elem p (successors_of g m from) ≡ true) × Walk (successors_of g m) p b))
  unfolding reachable_from is_valid_event_id
  reachable_from_lem from kept =
      let (flags, ran, marks) =
        search-Walk (successors_of g m) (event_count g) (length m.extra_rf_consumers + 2)
          (length-successors_of g mask fifo m made) (successors_of-lt g mask fifo m made) from
          (fuel_for g m) (omega arith) in
      let valid : ltb from (event_count g) ≡ true =
        lt→ltb from (event_count g) (kept_event-lt g mask fifo m made from kept) in
      (flags, rw (valid, kept, reachable_from) ran, marks)
