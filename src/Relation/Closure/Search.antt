-- ===== src/Relation/Closure/Search.antt =====
-- include/dpor/model/relation.hpp, TransitiveClosureRelation::for_each_successor: the traversal.
use cpp_dpor.Prelude.{
  ℕ, zero, suc, ◌+◌, ◌≤◌, ◌<◌, ◌≡◌, inl, inr, refl, ap, Bool, true, false, not, ◌&&◌, ◌||◌, List,
  [], ◌∷◌, ◌++◌, arith, ◌==◌, if◌then◌else◌, ==→eq, Bool-cases, length, get_or, set, replicate,
  length-set, get_or-set, elem, count, elem-count, elem-append,
}
use mathlib.Core.Path.{subst}
use cpp_dpor.Errors.{Result, ok, throw, internal_error, ◌>>=◌}
use cpp_dpor.Relation.{Relation, IsRelation}

abbrev pub marked : List Bool → ℕ → Bool
marked visited x = get_or visited x false

pub unvisited : List Bool → List ℕ → List ℕ
unvisited visited [] = []
unvisited visited (x ∷ xs) =
    let rest = unvisited visited xs in if marked visited x then rest else x ∷ rest

-- The loop over `pending` from the cursor on, with the nodes that it hands to the callback. Fuel is
-- spent on a visit only, so the node count is enough; `internal_error` says that it ran out.
pub search : Relation → ℕ → List ℕ → List Bool → Result (List ℕ)
unfolding unvisited
search r fuel [] visited = ok []
search r zero (x ∷ pending) visited = elim (marked visited x) [
  | true ↦ search r zero pending visited
  | false ↦ throw internal_error
]
search r (suc fuel) (x ∷ pending) visited = elim (marked visited x) [
  | true ↦ search r (suc fuel) pending visited
  | false ↦ do
    next ← r.successors x
    let visited' = set visited x true
    rest ← search r fuel (pending ++ unvisited visited' next) visited'
    ok (x ∷ rest)
]

-- The flags that are still down.
abbrev pub unseen : List Bool → ℕ
unseen [] = 0
unseen (true ∷ flags) = unseen flags
unseen (false ∷ flags) = suc (unseen flags)

pub unseen-replicate : (n : ℕ) → unseen (replicate n false) ≡ n
unseen-replicate zero = refl
unseen-replicate (suc n) = ap suc (unseen-replicate n)

pub unseen-set :
    (flags : List Bool) (x : ℕ)
    → x < length flags
    → marked flags x ≡ false
    → suc (unseen (set flags x true)) ≡ unseen flags
unseen-set [] x h e = elim h [ ]
unseen-set (b ∷ flags) zero h e = rw e
unseen-set (true ∷ flags) (suc x) h e = unseen-set flags x (omega arith) e
unseen-set (false ∷ flags) (suc x) h e = ap suc (unseen-set flags x (omega arith) e)

elem-unvisited :
    (visited : List Bool) (xs : List ℕ) (y : ℕ)
    → elem y (unvisited visited xs) ≡ (elem y xs && not (marked visited y))
unfolding unvisited
elem-unvisited visited [] y = refl
elem-unvisited visited (x ∷ xs) y = ground (arith, elem-unvisited visited xs y)

-- A walk of any length.
pub data Walk (next : ℕ → List ℕ) (a : ℕ) : ℕ → Type 0 where
  here : Walk next a a
  step : {b c : ℕ} → Walk next a b → elem c (next b) ≡ true → Walk next a c

pub Walk-on :
    {next : ℕ → List ℕ} {a b c : ℕ} → elem b (next a) ≡ true → Walk next b c → Walk next a c
Walk-on h here = step here h
Walk-on h (step w e) = step (Walk-on h w) e

pub record Searched (next : ℕ → List ℕ) (pending : List ℕ) (visited : List Bool) (out : List ℕ)
    : Type 0 where
  pub covers : (y : ℕ) → elem y pending ≡ true → (marked visited y || elem y out) ≡ true
  pub closed :
      (x y : ℕ)
      → elem x out ≡ true
      → elem y (next x) ≡ true
      → (marked visited y || elem y out) ≡ true
  pub sound : (y : ℕ) → elem y out ≡ true → (p : ℕ) × (elem p pending ≡ true) × Walk next p y
  pub once : (y : ℕ) → count y out + (if marked visited y then 1 else 0) ≤ 1

module _ (r : Relation) (next : ℕ → List ℕ) (law : IsRelation r next) where
  abbrev InRange : List ℕ → Type 0
  InRange xs = (y : ℕ) → elem y xs ≡ true → y < r.node_count

  skip :
      {x : ℕ} {pending : List ℕ} {visited : List Bool} {out : List ℕ}
      → marked visited x ≡ true
      → Searched next pending visited out
      → Searched next (x ∷ pending) visited out
  skip {x} seen s = record {
    covers = λ y h. ground (arith, s.covers y, ==→eq x y);
    closed = s.closed;
    sound = λ y h. let (p, e, w) = s.sound y h in (p, ground arith, w);
    once = s.once;
  }

  queue :
      (flags : List Bool) (pending xs : List ℕ) (y : ℕ)
      → elem y (pending ++ unvisited flags xs)
        ≡ (elem y pending || elem y xs && not (marked flags y))
  queue flags pending xs y =
      ground (arith, elem-append y pending (unvisited flags xs), elem-unvisited flags xs y)

  visit :
      {x : ℕ} {pending : List ℕ} {visited : List Bool} {out : List ℕ}
      → x < length visited
      → marked visited x ≡ false
      → Searched next (pending ++ unvisited (set visited x true) (next x)) (set visited x true) out
      → Searched next (x ∷ pending) visited (x ∷ out)
  visit {x} {pending} {visited} {out} lt new s =
      let visited' = set visited x true in
      let flag = λ (y : ℕ). get_or-set visited x y true false lt in
      let todo = queue visited' pending (next x) in
      record {
        covers = λ y h. ground (arith, s.covers y, flag y, todo y);
        closed = λ z y h e. ground (arith, s.closed z y, s.covers y, flag y, todo y, ==→eq x z);
        sound = λ y h. elim (Bool-cases (x == y)) [
          | inl e ↦ (x, ground arith, subst (Walk next x) (==→eq x y e) here)
          | inr e ↦
              let (p, m, w) = s.sound y (ground arith) in
              elim (Bool-cases (elem p pending)) [
                | inl old ↦ (p, ground arith, w)
                | inr fresh ↦ (x, ground arith, Walk-on (ground (arith, todo p)) w)
              ]
        ];
        once = λ y. ground (arith, s.once y, flag y, elem-count y out);
      }

  -- With fuel for every node that is not visited yet the search ends, with every node that it owes.
  pub search_lem :
      (fuel : ℕ) (pending : List ℕ) (visited : List Bool)
      → length visited ≡ r.node_count
      → InRange pending
      → unseen visited ≤ fuel
      → (out : List ℕ) × (search r fuel pending visited ≡ ok out)
        × Searched next pending visited out
  unfolding search
  search_lem fuel [] visited n h f = (
    [],
    refl,
    record {
      covers = λ y e. cc;
      closed = λ x y e. cc;
      sound = λ y e. cc;
      once = λ y. ground arith;
    },
  )
  search_lem zero (x ∷ pending) visited n h f = elim (Bool-cases (marked visited x)) [
    | inl seen ↦
        let (out, e, s) = search_lem zero pending visited n (λ y m. h y (ground arith)) f in
        (out, rw (seen, search) e, skip seen s)
    | inr new ↦ absurd (omega (arith, unseen-set visited x (omega (arith, h x (ground arith))) new))
  ]
  search_lem (suc fuel) (x ∷ pending) visited n h f = elim (Bool-cases (marked visited x)) [
    | inl seen ↦
        let (out, e, s) = search_lem (suc fuel) pending visited n (λ y m. h y (ground arith)) f in
        (out, rw (seen, search) e, skip seen s)
    | inr new ↦
        let lt : x < length visited = omega (arith, h x (ground arith)) in
        let visited' = set visited x true in
        let (out, e, s) =
          search_lem fuel (pending ++ unvisited visited' (next x)) visited'
            (omega (arith, length-set visited x true))
            (λ y m. ground (arith, h y, law.in_range x y, queue visited' pending (next x) y))
            (omega (arith, unseen-set visited x lt new)) in
        (x ∷ out, rw (new, search, law.listed x (h x (ground arith)), e) refl, visit lt new s)
  ]
