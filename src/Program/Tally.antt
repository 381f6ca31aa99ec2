-- ===== src/Program/Tally.antt =====
-- include/dpor/algo/program.hpp, ThreadMapT: how many entries are assigned.
use cpp_dpor.Prelude.{
  ℕ, zero, suc, ◌≤◌, ◌<◌, ◌≡◌, refl, ap, Bool, true, false, List, [], ◌∷◌, Option, some, none,
  arith, if◌then◌else◌, length, get_or, set, grow,
}
use cpp_dpor.Program.{ThreadMap}

module _ {ℓ} {A : Type ℓ} where
  abbrev pub occupied : List (Option A) → ℕ → Bool
  occupied entries i = elim (get_or entries i none) [ none ↦ false | some a ↦ true ]

  unfoldable pub tally : List (Option A) → ℕ
  tally [] = 0
  tally (none ∷ entries) = tally entries
  tally (some a ∷ entries) = suc (tally entries)

  -- As many threads as the map counts.
  abbrev pub IsTallied : ThreadMap A → Type 0
  IsTallied m = m.size ≡ tally m.entries

  -- Entries below `k` only are at most `k`, and if they are `k` then there is one at each place.
  pub tally-le :
      (entries : List (Option A)) (k : ℕ)
      → ((i : ℕ) → occupied entries i ≡ true → i < k)
      → tally entries ≤ k
  unfolding tally
  tally-le [] k h = omega arith
  tally-le (none ∷ entries) zero h =
      tally-le entries zero (λ i o. absurd (omega (arith, h (suc i) o)))
  tally-le (none ∷ entries) (suc k) h =
      omega (arith, tally-le entries k (λ i o. omega (arith, h (suc i) o)))
  tally-le (some a ∷ entries) zero h = absurd (omega (arith, h 0 refl))
  tally-le (some a ∷ entries) (suc k) h =
      omega (arith, tally-le entries k (λ i o. omega (arith, h (suc i) o)))

  pub tally-full :
      (entries : List (Option A)) (k : ℕ)
      → ((i : ℕ) → occupied entries i ≡ true → i < k)
      → tally entries ≡ k
      → (i : ℕ) → i < k
      → occupied entries i ≡ true
  unfolding tally
  tally-full [] k h n i lt = absurd (omega arith)
  tally-full (none ∷ entries) zero h n i lt = absurd (omega arith)
  tally-full (none ∷ entries) (suc k) h n i lt =
      absurd (omega (arith, tally-le entries k (λ i o. omega (arith, h (suc i) o))))
  tally-full (some a ∷ entries) zero h n i lt = absurd (omega arith)
  tally-full (some a ∷ entries) (suc k) h n zero lt = refl
  tally-full (some a ∷ entries) (suc k) h n (suc i) lt =
      tally-full entries k (λ i o. omega (arith, h (suc i) o)) (omega arith) i (omega arith)

  full-tally :
      (entries : List (Option A)) (k : ℕ)
      → ((i : ℕ) → i < k → occupied entries i ≡ true)
      → k ≤ tally entries
  unfolding tally
  full-tally entries zero h = omega arith
  full-tally [] (suc k) h = cc (h 0 (omega arith))
  full-tally (none ∷ entries) (suc k) h = cc (h 0 (omega arith))
  full-tally (some a ∷ entries) (suc k) h =
      omega (arith, full-tally entries k (λ i o. h (suc i) (omega arith)))

  pub none-tally :
      (entries : List (Option A)) → ((i : ℕ) → occupied entries i ≡ false) → tally entries ≡ 0
  none-tally entries h = omega (arith, tally-le entries 0 (λ i o. absurd (cc (h i))))

  pub occupied-tally :
      (entries : List (Option A)) (i : ℕ) → occupied entries i ≡ true → 0 < tally entries
  unfolding tally
  occupied-tally [] i o = cc
  occupied-tally (none ∷ entries) zero o = cc
  occupied-tally (none ∷ entries) (suc i) o = occupied-tally entries i o
  occupied-tally (some a ∷ entries) i o = omega arith

  pub tally-set :
      (entries : List (Option A)) (t : ℕ) (a : A)
      → t < length entries
      → tally (set entries t (some a))
        ≡ (if occupied entries t then tally entries else suc (tally entries))
  unfolding tally
  tally-set [] t a h = absurd (omega arith)
  tally-set (none ∷ entries) zero a h = refl
  tally-set (some b ∷ entries) zero a h = refl
  tally-set (none ∷ entries) (suc t) a h = tally-set entries t a (omega arith)
  tally-set (some b ∷ entries) (suc t) a h = ground (arith, tally-set entries t a (omega arith))

  pub tally-grow : (k : ℕ) (entries : List (Option A)) → tally (grow k none entries) ≡ tally entries
  unfolding tally
  tally-grow zero entries = refl
  tally-grow (suc k) [] = tally-grow k []
  tally-grow (suc k) (none ∷ entries) = tally-grow k entries
  tally-grow (suc k) (some a ∷ entries) = ap suc (tally-grow k entries)
