-- ===== src/Program.antt =====
-- include/dpor/algo/program.hpp, ThreadMapT: a vector of optional entries, by thread id.
pub mod Tally
pub mod Span
pub mod Compact
use cpp_dpor.Prelude.{
  ℕ, suc, ◌+◌, Bool, true, false, not, ◌&&◌, ◌||◌, List, [], ◌∷◌, Option, some, none, ltb, ◌==◌,
  if◌then◌else◌, get_or, put,
}
use cpp_dpor.Errors.{Result, ok, throw, throw_if, precondition_error, internal_error}

pub record ThreadMap {ℓ} (A : Type ℓ) : Type ℓ where
  pub entries : List (Option A)
  pub size : ℕ

module _ {ℓ} {A : Type ℓ} where
  unfoldable pub no_threads : ThreadMap A
  no_threads = record { entries = []; size = 0 }

  pub contains : ThreadMap A → ℕ → Bool
  contains m t = elim (get_or m.entries t none) [ none ↦ false | some a ↦ true ]

  unfoldable pub at : ThreadMap A → ℕ → Result A
  at m t = elim (get_or m.entries t none) [ none ↦ throw precondition_error | some a ↦ ok a ]

  -- `m[t] = a`
  pub assign : ThreadMap A → ℕ → A → ThreadMap A
  unfolding contains
  assign m t a = record {
    entries = put m.entries t none (some a);
    size = if contains m t then m.size else m.size + 1;
  }

  -- The constructor from a list of pairs.
  unfoldable pub from_list : List (ℕ × A) → ThreadMap A → ThreadMap A
  unfolding assign
  from_list [] m = m
  from_list ((t, a) ∷ rest) m = from_list rest (assign m t a)

  pub is_empty : ThreadMap A → Bool
  is_empty m = m.size == 0

  -- The loop of the validation from `index` on, with the smallest and the largest id so far.
  pub span : ℕ → List (Option A) → Option ℕ → ℕ → Option ℕ × ℕ
  span index [] min_tid max_tid = (min_tid, max_tid)
  span index (none ∷ entries) min_tid max_tid = span (suc index) entries min_tid max_tid
  span index (some a ∷ entries) min_tid max_tid =
      span (suc index) entries
        (elim min_tid [ none ↦ some index | some m ↦ if ltb index m then some index else some m ])
        (if ltb max_tid index then index else max_tid)

  -- A map that counts threads and holds none, which no assignment builds, would read an empty optional:
  -- `internal_error`, which the code does not throw.
  unfoldable pub validate_compact_thread_ids : ThreadMap A → Result (Unit {0})
  unfolding span
  validate_compact_thread_ids m =
      let (min_tid, max_tid) = span 0 m.entries none 0 in
      if m.size == 0 then ok tt else elim min_tid [
        | none ↦ throw internal_error
        | some first_tid ↦
            throw_if
              (not (
                (first_tid == 0 && max_tid + 1 == m.size) || (first_tid == 1 && max_tid == m.size)))
              precondition_error
      ]

  pub assigned_from : ℕ → List (Option A) → List (ℕ × A)
  assigned_from index [] = []
  assigned_from index (none ∷ entries) = assigned_from (suc index) entries
  assigned_from index (some a ∷ entries) = (index, a) ∷ assigned_from (suc index) entries

  -- What `for_each_assigned` hands to its callback, in order.
  unfoldable pub assigned : ThreadMap A → List (ℕ × A)
  unfolding assigned_from
  assigned m = assigned_from 0 m.entries
