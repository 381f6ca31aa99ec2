-- ===== src/Graph/WellFormed.antt =====
-- include/dpor/model/execution_graph.hpp, ExecutionGraphT: the invariant of the event indices, and
-- the steps of an insertion.
pub mod Insertion
use cpp_dpor.Prelude.{
  ℕ, zero, suc, ◌+◌, ◌-◌, ◌*◌, ◌^◌, ◌≤◌, ◌<◌, max, ◌≡◌, ◌≢◌, ◌↔◌, ◌⊎◌, inl, inr, refl, sym, ap, ◌∙◌,
  Bool, true, false, not, ◌&&◌, ◌||◌, List, [], ◌∷◌, ◌++◌, map, Option, some, none, arith, ltb, leb,
  ◌==◌, if◌then◌else◌, ltb→lt, lt→ltb, ltb-eq-false, ltb-false→le, leb→le, ==_iff, ==_refl, ==→eq,
  Bool-cases, Option-cases, List-cases, bool_ext, length, get_elem?, get_or, set, replicate,
  length-append, length-set, length-replicate, get_or-replicate, get_or-of_le, get_elem?-of_le,
  get_elem?-of_lt, get_elem?-append_left, get_elem?-append_last, pop_back, back?, pop_back-append,
  back?-append, get_or-set, lt-length_of_get_elem?, get_elem?-concat, grow, get_or-grow,
  le-length-grow, length-grow, put, get_or-put, elem, count, elem-count, count-append, elem-append,
  elem_of_get_elem?, get_elem?_of_elem, All, All-append, All-map,
}
use cpp_dpor.Errors.{Result, ok, throw, throw_if, precondition_error, internal_error, ◌>>◌, ◌>>=◌}
use cpp_dpor.Event.{Event, EventLabel, max_index, max_thread_id}
use cpp_dpor.Graph.Indices.{UsedEventIndexSet, no_indices}
use cpp_dpor.Graph.Indices
use cpp_dpor.Graph.Indices.Laws.{
  contains-insert, insert-IsValid, no_indices-IsValid, contains-no_indices,
}
use cpp_dpor.Graph.Indices.Laws
use cpp_dpor.Graph.ReadsFrom.{ReadsFromSource}
use cpp_dpor.Graph.{
  ExecutionGraph, seek, empty_graph, next_of, used_of, ensure_thread_storage, next_event_index,
  append_event_unchecked, add_event, add_event_with_index, set_reads_from_source,
}

-- What the search for a free index answers.
pub data Sought (used : UsedEventIndexSet) (next : ℕ) (r : Result ℕ) : Type 0 where
  found :
      (i : ℕ)
      → r ≡ ok i
      → next ≤ i
      → i ≤ max_index
      → Indices.contains used i ≡ false
      → ((k : ℕ) → next ≤ k → k < i → Indices.contains used k ≡ true)
      → Sought used next r
  full : r ≡ throw precondition_error → Indices.contains used max_index ≡ true → Sought used next r

Sought-weaken :
    {used : UsedEventIndexSet} {m : ℕ} {r : Result ℕ}
    → Indices.contains used m ≡ true
    → Sought used (m + 1) r
    → Sought used m r
Sought-weaken {used} {m} old (found i e lo hi new least) =
    found i e (omega arith) hi new λ k low high. elim (Bool-cases (k == m)) [
      | inl same ↦ ap (Indices.contains used) (==→eq k m same) ∙ old
      | inr other ↦ least k (ground arith) high
    ]
Sought-weaken old (full e u) = full e u

pub seek_lem :
    (fuel : ℕ) (used : UsedEventIndexSet) (next : ℕ)
    → next ≤ max_index
    → max_index < next + fuel
    → Sought used next (seek fuel used next)
unfolding seek
seek_lem zero used next h f = absurd (omega arith)
seek_lem (suc fuel) used next h f = elim (Bool-cases (Indices.contains used next)) [
  | inr new ↦
      found next (rw new refl) (omega arith) h new (λ k low high. absurd (omega (arith, low, high)))
  | inl old ↦ elim (Bool-cases (next == max_index)) [
    | inl last ↦ full (rw (old, last) refl) (rw (← ==→eq next max_index last) old)
    | inr more ↦
        rw (old, more)
          (Sought-weaken old (seek_lem fuel used (next + 1) (ground arith) (omega arith)))
  ]
]

-- The bookkeeping of one thread: the indices in use lie below the counter, but for the last index
-- that there is, where the counter stays.
pub record IsThread (used : UsedEventIndexSet) (next : ℕ) : Type 0 where
  pub valid : Laws.IsValid used
  pub bounded : next ≤ max_index
  pub fresh :
      (i : ℕ) → Indices.contains used i ≡ true → (i < next) ⊎ ((i ≡ max_index) × (next ≡ max_index))

no_indices-IsThread : IsThread no_indices 0
no_indices-IsThread = record {
  valid = no_indices-IsValid;
  bounded = omega arith;
  fresh = λ i h. cc (contains-no_indices i);
}

-- An index that is free and not below the counter is entered, and the counter moves on.
insert-IsThread :
    (used : UsedEventIndexSet) (next i : ℕ)
    → IsThread used next
    → next ≤ i
    → i ≤ max_index
    → Indices.contains used i ≡ false
    → IsThread (Indices.insert used i) (if i == max_index then i else i + 1)
insert-IsThread used next i v lo hi new = record {
  valid = insert-IsValid used i v.valid new;
  bounded = ground arith;
  fresh = λ j h. ground (arith, contains-insert used i j, v.fresh j);
}

module _ {ℓ} {V : Type ℓ} where
  -- Each event's index is in use in its thread, and grows along the thread.
  pub record IsWellFormed (g : ExecutionGraph V) : Type ℓ where
    pub sizes : length g.next_event_index_by_thread ≡ length g.used_event_indices_by_thread
    pub threads : (t : ℕ) → IsThread (used_of g t) (next_of g t)
    pub stored :
        (id : ℕ) (e : Event V)
        → get_elem? g.events id ≡ some e
        → e.thread < length g.next_event_index_by_thread
    pub indexed :
        (id : ℕ) (e : Event V)
        → get_elem? g.events id ≡ some e
        → Indices.contains (used_of g e.thread) e.index ≡ true
    pub increasing :
        (a b : ℕ) (d e : Event V)
        → a < b
        → get_elem? g.events a ≡ some d
        → get_elem? g.events b ≡ some e
        → d.thread ≡ e.thread
        → d.index < e.index

  pub empty_graph-IsWellFormed : IsWellFormed empty_graph
  empty_graph-IsWellFormed = record {
    sizes = refl;
    threads = λ t. no_indices-IsThread;
    stored = λ id e h. cc;
    indexed = λ id e h. cc;
    increasing = λ a b d e o h k same. cc;
  }

  -- The counter may be moved up to any index.
  pub bump-IsWellFormed :
      (g : ExecutionGraph V) (t i : ℕ)
      → IsWellFormed g
      → t < length g.next_event_index_by_thread
      → next_of g t ≤ i
      → i ≤ max_index
      → IsWellFormed
          (record g { next_event_index_by_thread = set g.next_event_index_by_thread t i })
  bump-IsWellFormed g t i v lt lo hi =
      let counter = λ (j : ℕ). get_or-set {A = ℕ} g.next_event_index_by_thread t j i 0 lt in
      record {
        sizes = length-set g.next_event_index_by_thread t i ∙ v.sizes;
        threads = λ j. record {
          valid = (v.threads j).valid;
          bounded = ground (arith, counter j, (v.threads j).bounded);
          fresh = λ k h. ground (arith, counter j, (v.threads j).fresh k h, ==→eq t j);
        };
        stored =
            λ id e h. omega (arith, length-set g.next_event_index_by_thread t i, v.stored id e h);
        indexed = v.indexed;
        increasing = v.increasing;
      }

  pub append-IsWellFormed :
      (g : ExecutionGraph V) (t i : ℕ) (label : EventLabel V)
      → IsWellFormed g
      → t < length g.next_event_index_by_thread
      → next_of g t ≤ i
      → i ≤ max_index
      → Indices.contains (used_of g t) i ≡ false
      → IsWellFormed (append_event_unchecked g t i label).0
  unfolding append_event_unchecked
  append-IsWellFormed g t i label v lt lo hi new =
      let next' : ℕ = if i == max_index then i else i + 1 in
      let used' = Indices.insert (used_of g t) i in
      let e' : Event V = record { thread = t; index = i; label = label } in
      let counter = λ (j : ℕ). get_or-set {A = ℕ} g.next_event_index_by_thread t j next' 0 lt in
      let owned = λ (j : ℕ).
        get_or-set g.used_event_indices_by_thread t j used' no_indices (omega (arith, v.sizes)) in
      let at = get_elem?-concat g.events e' in
      let old_index =
        λ (a : ℕ) (d : Event V) (h : get_elem? g.events a ≡ some d) (s : d.thread ≡ t).
          let used_here : Indices.contains (used_of g t) d.index ≡ true =
            cc (v.indexed a d h, ap (λ (k : ℕ). Indices.contains (used_of g k) d.index) s) in
          used_here in
      record {
        sizes =
            length-set g.next_event_index_by_thread t next'
            ∙ (v.sizes ∙ sym (length-set g.used_event_indices_by_thread t used'));
        threads = λ j. elim (Bool-cases (t == j)) [
          | inl same ↦
              rw (owned j, counter j, same)
                (insert-IsThread (used_of g t) (next_of g t) i (v.threads t) lo hi new)
          | inr differ ↦ rw (owned j, counter j, differ) (v.threads j)
        ];
        stored = λ id e h.
            ground (arith, at id, v.stored id e, length-set g.next_event_index_by_thread t next');
        indexed = λ id e h.
            ground (
              arith,
              at id,
              owned e.thread,
              v.indexed id e,
              contains-insert (used_of g t) i e.index,
            );
        increasing = λ a b d e o h k same. ground (
          arith,
          at a,
          at b,
          v.increasing a b d e,
          lt-length_of_get_elem? g.events a {a = d},
          lt-length_of_get_elem? g.events b {a = e},
          old_index a d,
          (v.threads t).fresh d.index,
        );
      }
