-- ===== src/Program/Compact.antt =====
-- include/dpor/algo/program.hpp, ThreadMapT::validate_compact_thread_ids: which thread ids it accepts.
use cpp_dpor.Prelude.{
  ℕ, zero, suc, ◌+◌, ◌-◌, ◌≤◌, ◌<◌, ◌≡◌, ◌↔◌, inl, inr, refl, sym, ◌∙◌, true, false, not, ◌&&◌,
  ◌||◌, List, [], ◌∷◌, Option, some, none, arith, ltb, leb, ◌==◌, ltb→lt, ==→eq, Bool-cases, grow,
  get_or-grow, le-length-grow,
}
use cpp_dpor.Errors.{ok, throw_if, precondition_error}
use cpp_dpor.Program.{
  ThreadMap, no_threads, contains, assign, from_list, span, validate_compact_thread_ids,
}
use cpp_dpor.Program.Tally.{
  occupied, tally, IsTallied, tally-full, none-tally, occupied-tally, tally-set, tally-grow,
}
use cpp_dpor.Program.Span.{span-Bounds}

module _ {ℓ} {A : Type ℓ} where
  -- An assignment keeps the count right.
  assign-IsTallied : (m : ThreadMap A) (t : ℕ) (a : A) → IsTallied m → IsTallied (assign m t a)
  unfolding assign contains
  assign-IsTallied m t a n =
      let grown = grow (suc t) none m.entries in
      ground (
        arith,
        tally-set grown t a (le-length-grow (suc t) none m.entries),
        tally-grow (suc t) m.entries,
        get_or-grow (suc t) none m.entries t,
      )

  -- So a map built from a list of pairs is counted.
  from_list-IsTallied :
      (threads : List (ℕ × A)) (m : ThreadMap A) → IsTallied m → IsTallied (from_list threads m)
  unfolding from_list
  from_list-IsTallied [] m n = n
  from_list-IsTallied ((t, a) ∷ threads) m n =
      from_list-IsTallied threads (assign m t a) (assign-IsTallied m t a n)

  zero_based :
      (entries : List (Option A)) (k : ℕ)
      → ((i : ℕ) → occupied entries i ≡ true → i < k)
      → tally entries ≡ k
      → (t : ℕ) → occupied entries t ≡ ltb t k
  zero_based entries k h n t = elim (Bool-cases (ltb t k)) [
    | inl less ↦ rw less (tally-full entries k h n t (ltb→lt t k less))
    | inr more ↦ ground (arith, h t)
  ]

  one_based :
      (entries : List (Option A)) (k : ℕ)
      → occupied entries 0 ≡ false
      → ((i : ℕ) → occupied entries i ≡ true → i ≤ k)
      → tally entries ≡ k
      → (t : ℕ) → occupied entries t ≡ (ltb 0 t && leb t k)
  unfolding tally
  one_based [] k free h n t = ground arith
  one_based (none ∷ entries) k free h n zero = ground arith
  one_based (none ∷ entries) k free h n (suc t) =
      let rest = zero_based entries k (λ i o. omega (arith, h (suc i) o)) n t in ground arith
  one_based (some a ∷ entries) k free h n t = cc

  -- The threads of the map have the ids from 0 or from 1 on, without a gap.
  pub data IsCompact (m : ThreadMap A) : Type 0 where
    from_zero : ((t : ℕ) → contains m t ≡ ltb t m.size) → IsCompact m
    from_one : ((t : ℕ) → contains m t ≡ (ltb 0 t && leb t m.size)) → IsCompact m

  module _ (m : ThreadMap A) where
    no_one : IsTallied m → m.size ≡ 0 → IsCompact m
    unfolding contains
    no_one n z = from_zero (λ t. ground (arith, occupied-tally m.entries t))

    accepted : IsTallied m → validate_compact_thread_ids m ≡ ok tt → IsCompact m
    unfolding validate_compact_thread_ids contains
    accepted n ran = elim (span-Bounds 0 m.entries) [
      | inl empty ↦ no_one n (n ∙ none-tally m.entries empty)
      | inr b ↦ elim (Bool-cases (m.size == 0)) [
        | inl zero_size ↦ no_one n (==→eq m.size 0 zero_size)
        | inr some_size ↦
            let (high, top, found) = b.highest in
            let test : throw_if
                  (not (
                    ((0 + b.low == 0) && ((span 0 m.entries none 0).1 + 1 == m.size))
                    || ((0 + b.low == 1) && ((span 0 m.entries none 0).1 == m.size))))
                  precondition_error
                ≡ ok tt =
              rw some_size at (rw b.low_found at ran) in
            elim (Bool-cases (b.low == 0 && high + 1 == m.size)) [
              | inl both ↦ from_zero (
                  zero_based m.entries m.size (λ i o. ground (arith, b.above_high i o, found))
                    (sym n))
              | inr other ↦
                  let one : (b.low == 1 && high == m.size) ≡ true = ground (arith, found) in
                  from_one (
                    one_based m.entries m.size (b.below_low 0 (ground arith))
                      (λ i o. ground (arith, b.above_high i o, found)) (sym n))
            ]
      ]
    ]

    admitted : IsCompact m → validate_compact_thread_ids m ≡ ok tt
    unfolding validate_compact_thread_ids contains
    admitted compact = elim (Bool-cases (m.size == 0)) [
      | inl zero_size ↦ rw zero_size refl
      | inr some_size ↦ elim (span-Bounds 0 m.entries) [
        | inl empty ↦ elim compact [
          | from_zero h ↦ absurd (ground (arith, h 0, empty 0))
          | from_one h ↦ absurd (ground (arith, h 1, empty 1))
        ]
        | inr b ↦
            let (high, top, found) = b.highest in
            rw some_size (
              rw b.low_found (elim compact [
                | from_zero h ↦
                    let ends = b.above_high (m.size - 1) (ground (arith, h (m.size - 1))) in
                    ground (arith, h 0, h high, b.below_low 0, found)
                | from_one h ↦
                    let ends = b.above_high m.size (ground (arith, h m.size)) in
                    ground (arith, h 0, h 1, h high, h b.low, b.low_occupied, b.below_low 1, found)
              ]))
      ]
    ]

  -- For a thread map built from a list of pairs, validate_compact_thread_ids returns normally
  -- exactly when the assigned ids are those from 0 to one less than the number of threads, or
  -- those from 1 to this number.
  pub validate_compact_thread_ids_lem :
      (threads : List (ℕ × A))
      → (validate_compact_thread_ids (from_list threads no_threads) ≡ ok tt)
        ↔ IsCompact (from_list threads no_threads)
  unfolding no_threads tally
  validate_compact_thread_ids_lem threads =
      let m = from_list threads no_threads in
      (accepted m (from_list-IsTallied threads no_threads refl), admitted m)
