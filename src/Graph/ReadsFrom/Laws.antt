-- ===== src/Graph/ReadsFrom/Laws.antt =====
-- include/dpor/model/execution_graph.hpp, ReadsFromRelationT: its operations as those of a finite
-- map with its size.
use cpp_dpor.Prelude.{
  ℕ, zero, suc, ◌+◌, ◌<◌, ◌≡◌, ◌↔◌, inl, inr, refl, List, [], ◌∷◌, Option, some, none, arith, ltb,
  ◌==◌, if◌then◌else◌, Bool-cases, length, get_or, set, get_or-of_le, get_or-set, grow, get_or-grow,
  le-length-grow, get_or-put, All,
}
use mathlib.Core.Path.{subst}
use cpp_dpor.Graph.ReadsFrom.{
  no_reads, ReadsFromSource, ReadsFromRelation, find, assign, clear, occupied, entries_from,
  to_list,
}

-- The number of cells that hold a source.
abbrev pub tally : List (Option ReadsFromSource) → ℕ
tally [] = 0
tally (c ∷ cells) = occupied c + tally cells

abbrev pub IsCounted : ReadsFromRelation → Type 0
IsCounted r = r.size ≡ tally r.entries

tally-grow :
    (n : ℕ) (cells : List (Option ReadsFromSource)) → tally (grow n none cells) ≡ tally cells
tally-grow zero cells = refl
tally-grow (suc n) [] = omega (arith, tally-grow n [])
tally-grow (suc n) (c ∷ cells) = omega (arith, tally-grow n cells)

tally-set :
    (cells : List (Option ReadsFromSource)) (i : ℕ) (c : Option ReadsFromSource)
    → i < length cells
    → tally (set cells i c) + occupied (get_or cells i none) ≡ tally cells + occupied c
tally-set [] i c h = elim h [ ]
tally-set (x ∷ cells) zero c h = omega arith
tally-set (x ∷ cells) (suc i) c h = omega (arith, tally-set cells i c)

pub find-assign :
    (r : ReadsFromRelation) (i j : ℕ) (s : ReadsFromSource)
    → find (assign r i s) j ≡ (if i == j then some s else find r j)
unfolding find assign
find-assign r i j s = get_or-put r.entries i j none (some s)

-- `set` rebinds one receive, keeps the others and the count.
pub assign-IsCounted :
    (r : ReadsFromRelation) (i : ℕ) (s : ReadsFromSource) → IsCounted r → IsCounted (assign r i s)
unfolding assign find
assign-IsCounted r i s h = ground (
  arith,
  tally-set (grow (suc i) none r.entries) i (some s),
  le-length-grow {A = Option ReadsFromSource} (suc i) none r.entries,
  get_or-grow {A = Option ReadsFromSource} (suc i) none r.entries i,
  tally-grow (suc i) r.entries,
)

pub find-clear :
    (r : ReadsFromRelation) (i j : ℕ) → find (clear r i) j ≡ (if i == j then none else find r j)
unfolding find clear
find-clear r i j = elim (Bool-cases (ltb i (length r.entries))) [
  | inl lt ↦ ground (arith, get_or-set {A = Option ReadsFromSource} r.entries i j none none)
  | inr ge ↦ ground (arith, get_or-of_le {A = Option ReadsFromSource} r.entries i none)
]

pub clear-IsCounted : (r : ReadsFromRelation) (i : ℕ) → IsCounted r → IsCounted (clear r i)
unfolding clear find
clear-IsCounted r i h = elim (Bool-cases (ltb i (length r.entries))) [
  | inl lt ↦ ground (arith, tally-set r.entries i none)
  | inr ge ↦ ground (arith, get_or-of_le {A = Option ReadsFromSource} r.entries i none)
]

-- Iteration visits exactly the entries of the map: a property holds at every visited pair when it
-- holds wherever `find` gives a source.
module _ {κ} (P : ℕ × ReadsFromSource → Type κ) where
  abbrev FoundFrom : ℕ → List (Option ReadsFromSource) → Type κ
  FoundFrom k cells = (i : ℕ) (s : ReadsFromSource) → get_or cells i none ≡ some s → P (k + i, s)

  entries_from-All :
      (k : ℕ) (cells : List (Option ReadsFromSource))
      → FoundFrom k cells
      → All P (entries_from k cells)
  unfolding entries_from
  entries_from-All k [] h = tt
  entries_from-All k (none ∷ cells) h =
      entries_from-All (suc k) cells (λ i s e. subst (λ n. P (n, s)) (omega arith) (h (suc i) s e))
  entries_from-All k (some s ∷ cells) h = (
    subst (λ n. P (n, s)) (omega arith) (h zero s refl),
    entries_from-All (suc k) cells (λ i t e. subst (λ n. P (n, t)) (omega arith) (h (suc i) t e)),
  )

  All-entries_from :
      (k : ℕ) (cells : List (Option ReadsFromSource))
      → All P (entries_from k cells)
      → FoundFrom k cells
  unfolding entries_from
  All-entries_from k [] h i s e = cc
  All-entries_from k (none ∷ cells) h zero s e = cc
  All-entries_from k (none ∷ cells) h (suc i) s e =
      subst (λ n. P (n, s)) (omega arith) (All-entries_from (suc k) cells h i s e)
  All-entries_from k (some t ∷ cells) h zero s e = subst P (ground arith) h.0
  All-entries_from k (some t ∷ cells) h (suc i) s e =
      subst (λ n. P (n, s)) (omega arith) (All-entries_from (suc k) cells h.1 i s e)

  pub to_list_lem :
      (r : ReadsFromRelation)
      → All P (to_list r) ↔ ((i : ℕ) (s : ReadsFromSource) → find r i ≡ some s → P (i, s))
  unfolding to_list find
  to_list_lem r = (
    λ h i s e. subst (λ n. P (n, s)) (omega arith) (All-entries_from 0 r.entries h i s e),
    λ h. entries_from-All 0 r.entries λ i s e. subst (λ n. P (n, s)) (omega arith) (h i s e),
  )

pub find-no_reads : (i : ℕ) → find no_reads i ≡ none
unfolding find
find-no_reads i = refl
