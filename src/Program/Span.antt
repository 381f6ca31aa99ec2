-- ===== src/Program/Span.antt =====
-- include/dpor/algo/program.hpp, validate_compact_thread_ids: the loop that finds the smallest and the
-- largest thread id.
use cpp_dpor.Prelude.{
  ℕ, zero, suc, ◌+◌, ◌≤◌, ◌<◌, ◌≡◌, ◌⊎◌, inl, inr, refl, ap, ◌∙◌, true, false, List, [], ◌∷◌,
  Option, some, none, arith, ltb, if◌then◌else◌, lt→ltb,
}
use cpp_dpor.Program.{span}
use cpp_dpor.Program.Tally.{occupied}

module _ {ℓ} {A : Type ℓ} where
  -- What the loop finds, once it has seen an id: no entry is below the first, none above the last.
  record Spans (index : ℕ) (entries : List (Option A)) (m max_tid : ℕ) (r : Option ℕ × ℕ)
      : Type 0 where
    first : r.0 ≡ some m
    above : max_tid ≤ r.1
    last : (i : ℕ) → occupied entries i ≡ true → index + i ≤ r.1
    reached : (r.1 ≡ max_tid) ⊎ ((i : ℕ) × (occupied entries i ≡ true) × (r.1 ≡ index + i))

  abbrev pub IsLast : ℕ → List (Option A) → ℕ → Type 0
  IsLast index entries n = (i : ℕ) → occupied entries i ≡ true → index + i ≤ n

  IsLast-none :
      (index : ℕ) (entries : List (Option A)) (n : ℕ)
      → IsLast (suc index) entries n
      → IsLast index (none ∷ entries) n
  IsLast-none index entries n h zero o = cc
  IsLast-none index entries n h (suc i) o = omega (arith, h i o)

  IsLast-some :
      (index : ℕ) (a : A) (entries : List (Option A)) (n : ℕ)
      → index ≤ n
      → IsLast (suc index) entries n
      → IsLast index (some a ∷ entries) n
  IsLast-some index a entries n le h zero o = omega arith
  IsLast-some index a entries n le h (suc i) o = omega (arith, h i o)

  span-Spans :
      (index : ℕ) (entries : List (Option A)) (m max_tid : ℕ)
      → m < index
      → max_tid < index
      → Spans index entries m max_tid (span index entries (some m) max_tid)
  unfolding span
  span-Spans index [] m max_tid h k = record {
    first = refl;
    above = omega arith;
    last = λ i o. cc;
    reached = inl refl;
  }
  span-Spans index (none ∷ entries) m max_tid h k =
      let s = span-Spans (suc index) entries m max_tid (omega arith) (omega arith) in
      record {
        first = s.first;
        above = s.above;
        last = IsLast-none index entries _ s.last;
        reached = elim s.reached [
          | inl same ↦ inl same
          | inr (i, o, e) ↦ inr (suc i, o, e ∙ omega arith)
        ];
      }
  span-Spans index (some a ∷ entries) m max_tid h k =
      let s = span-Spans (suc index) entries m index (omega arith) (omega arith) in
      let not_less : ltb index m ≡ false = ground arith in
      rw not_less (
        rw (lt→ltb max_tid index k) (record {
          first = s.first;
          above = omega (arith, s.above);
          last = IsLast-some index a entries _ s.above s.last;
          reached = elim s.reached [
            | inl same ↦ inr (0, refl, same ∙ omega arith)
            | inr (i, o, e) ↦ inr (suc i, o, e ∙ omega arith)
          ];
        }))

  -- The loop from its start: the first and the last of the entries.
  pub record Bounds (index : ℕ) (entries : List (Option A)) (r : Option ℕ × ℕ) : Type 0 where
    pub low : ℕ
    pub low_found : r.0 ≡ some (index + low)
    pub low_occupied : occupied entries low ≡ true
    pub below_low : (i : ℕ) → i < low → occupied entries i ≡ false
    pub highest : (i : ℕ) × (occupied entries i ≡ true) × (r.1 ≡ index + i)
    pub above_high : IsLast index entries r.1

  pub span-Bounds :
      (index : ℕ) (entries : List (Option A))
      → ((i : ℕ) → occupied entries i ≡ false) ⊎ Bounds index entries (span index entries none 0)
  unfolding span
  span-Bounds index [] = inl (λ i. refl)
  span-Bounds index (none ∷ entries) = elim (span-Bounds (suc index) entries) [
    | inl empty ↦ inl (still_empty empty)
    | inr b ↦ inr (record {
      low = suc b.low;
      low_found = b.low_found ∙ ap (λ (k : ℕ). some k) (omega arith);
      low_occupied = b.low_occupied;
      below_low = low_skips b.low b.below_low;
      highest = let (i, o, e) = b.highest in (suc i, o, e ∙ omega arith);
      above_high = IsLast-none index entries _ b.above_high;
    })
  ]
    where
      still_empty :
          ((i : ℕ) → occupied entries i ≡ false) → (i : ℕ) → occupied (none ∷ entries) i ≡ false
      still_empty h zero = refl
      still_empty h (suc i) = h i

      low_skips :
          (low : ℕ)
          → ((i : ℕ) → i < low → occupied entries i ≡ false)
          → (i : ℕ) → i < suc low
          → occupied (none ∷ entries) i ≡ false
      low_skips low h zero lt = refl
      low_skips low h (suc i) lt = h i (omega arith)
  span-Bounds index (some a ∷ entries) =
      let start : (if ltb 0 index then index else 0) ≡ index = ground arith in
      let s = span-Spans (suc index) entries index index (omega arith) (omega arith) in
      inr (
        rw start (record {
          low = 0;
          low_found = s.first ∙ ap (λ (k : ℕ). some k) (omega arith);
          low_occupied = refl;
          below_low = λ i lt. absurd (omega arith);
          highest = elim s.reached [
            | inl same ↦ (0, refl, same ∙ omega arith)
            | inr (i, o, e) ↦ (suc i, o, e ∙ omega arith)
          ];
          above_high = IsLast-some index a entries _ s.above s.last;
        }))
