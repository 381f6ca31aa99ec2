-- ===== src/Graph/WellFormed/Insertion.antt =====
-- include/dpor/model/execution_graph.hpp, add_event and add_event_with_index on a well-formed
-- graph.
use cpp_dpor.Prelude.{
  ℕ, suc, ◌+◌, ◌≤◌, ◌<◌, ◌≡◌, ◌≢◌, ◌⊎◌, inl, inr, refl, sym, ap, ◌∙◌, true, false, List, [], ◌∷◌,
  ◌++◌, arith, ltb, leb, ◌==◌, if◌then◌else◌, ltb→lt, Bool-cases, length, set, length-set,
  get_or-set, grow, get_or-grow, le-length-grow, length-grow,
}
use mathlib.Core.Path.{subst}
use cpp_dpor.Errors.{ok-injective, Result, ok, throw, precondition_error}
use cpp_dpor.Event.{Event, EventLabel, max_index, max_thread_id}
use cpp_dpor.Graph.Indices.{UsedEventIndexSet, no_indices}
use cpp_dpor.Graph.Indices
use cpp_dpor.Graph.{
  ExecutionGraph, next_of, used_of, ensure_thread_storage, next_event_index, append_event_unchecked,
  add_event, add_event_with_index,
}
use cpp_dpor.Graph.WellFormed.{
  IsWellFormed, found, full, seek_lem, bump-IsWellFormed, append-IsWellFormed,
}

module _ {ℓ} {V : Type ℓ} where
  -- Storage for a thread: the graph keeps its contents.
  record IsStored (g : ExecutionGraph V) (t : ℕ) (g' : ExecutionGraph V) : Type ℓ where
    well_formed : IsWellFormed g'
    room : t < length g'.next_event_index_by_thread
    same_events : g'.events ≡ g.events
    same_reads : g'.reads_from ≡ g.reads_from
    same_next : (j : ℕ) → next_of g' j ≡ next_of g j
    same_used : (j : ℕ) → used_of g' j ≡ used_of g j

  data Ensured (g : ExecutionGraph V) (t : ℕ) (r : Result (ExecutionGraph V)) : Type ℓ where
    stored : (g' : ExecutionGraph V) → r ≡ ok g' → IsStored g t g' → Ensured g t r
    no_storage : r ≡ throw precondition_error → max_thread_id < t → Ensured g t r

  grow-IsWellFormed :
      (g : ExecutionGraph V) (n : ℕ)
      → IsWellFormed g
      → length g.next_event_index_by_thread ≤ n
      → IsWellFormed (record g {
        next_event_index_by_thread = grow n 0 g.next_event_index_by_thread;
        used_event_indices_by_thread = grow n no_indices g.used_event_indices_by_thread;
      })
  grow-IsWellFormed g n v h =
      let counter = λ (j : ℕ). get_or-grow {A = ℕ} n 0 g.next_event_index_by_thread j in
      let owned = λ (j : ℕ). get_or-grow n no_indices g.used_event_indices_by_thread j in
      record {
        sizes = omega (
          arith,
          v.sizes,
          length-grow n 0 g.next_event_index_by_thread,
          length-grow n no_indices g.used_event_indices_by_thread,
        );
        threads = λ j. rw (owned j, counter j) (v.threads j);
        stored =
            λ id e k. omega (arith, v.stored id e k, length-grow n 0 g.next_event_index_by_thread);
        indexed = λ id e k. rw (owned e.thread) (v.indexed id e k);
        increasing = v.increasing;
      }

  ensure_lem :
      (g : ExecutionGraph V) (t : ℕ) → IsWellFormed g → Ensured g t (ensure_thread_storage g t)
  unfolding ensure_thread_storage
  ensure_lem g t v = elim (Bool-cases (leb (length g.next_event_index_by_thread) t)) [
    | inr have ↦ stored g (rw have refl) (record {
      well_formed = v;
      room = ground arith;
      same_events = refl;
      same_reads = refl;
      same_next = λ j. refl;
      same_used = λ j. refl;
    })
    | inl lack ↦ elim (Bool-cases (ltb max_thread_id t)) [
      | inl big ↦ no_storage (rw (lack, big) refl) (ltb→lt max_thread_id t big)
      | inr small ↦
          let g' : ExecutionGraph V = record g {
            next_event_index_by_thread = grow (suc t) 0 g.next_event_index_by_thread;
            used_event_indices_by_thread = grow (suc t) no_indices g.used_event_indices_by_thread;
          } in
          stored g' (rw (lack, small) refl) (record {
            well_formed = grow-IsWellFormed g (suc t) v (ground arith);
            room = le-length-grow {A = ℕ} (suc t) 0 g.next_event_index_by_thread;
            same_events = refl;
            same_reads = refl;
            same_next = λ j. get_or-grow {A = ℕ} (suc t) 0 g.next_event_index_by_thread j;
            same_used = λ j. get_or-grow (suc t) no_indices g.used_event_indices_by_thread j;
          })
    ]
  ]

  -- What an insertion of an event does: the event stands at the end under a free index, `Chosen`, which is not
  -- below the thread's counter, and the graph is well formed again. It is refused only for a thread
  -- id beyond the limit or an index that is not free.
  pub data Inserted (g : ExecutionGraph V) (t : ℕ) (label : EventLabel V)
      (r : Result (ExecutionGraph V × ℕ)) (Chosen : ℕ → Type 0) (Refused : Type 0) : Type ℓ where
    inserted :
        (g' : ExecutionGraph V) (i : ℕ)
        → Chosen i
        → r ≡ ok (g', length g.events)
        → IsWellFormed g'
        → g'.events ≡ g.events ++ record { thread = t; index = i; label = label } ∷ []
        → g'.reads_from ≡ g.reads_from
        → next_of g t ≤ i
        → Indices.contains (used_of g t) i ≡ false
        → ((j : ℕ)
            → used_of g' j ≡ (if t == j then Indices.insert (used_of g t) i else used_of g j))
        → ((j : ℕ)
            → next_of g' j
              ≡ (if t == j then (if i == max_index then i else i + 1) else next_of g j))
        → Inserted g t label r Chosen Refused
    refused :
        r ≡ throw precondition_error
        → (max_thread_id < t) ⊎ Refused
        → Inserted g t label r Chosen Refused

  used_of-append :
      (g g1 : ExecutionGraph V) (t i : ℕ) (label : EventLabel V)
      → ((j : ℕ) → used_of g1 j ≡ used_of g j)
      → t < length g1.used_event_indices_by_thread
      → (j : ℕ)
      → used_of (append_event_unchecked g1 t i label).0 j
        ≡ (if t == j then Indices.insert (used_of g t) i else used_of g j)
  unfolding append_event_unchecked
  used_of-append g g1 t i label same lt j =
      get_or-set g1.used_event_indices_by_thread t j (Indices.insert (used_of g1 t) i) no_indices lt
      ∙ rw (same t) (rw (same j) refl)

  next_of-append :
      (g g1 : ExecutionGraph V) (t i : ℕ) (label : EventLabel V)
      → ((j : ℕ) → t ≢ j → next_of g1 j ≡ next_of g j)
      → t < length g1.next_event_index_by_thread
      → (j : ℕ)
      → next_of (append_event_unchecked g1 t i label).0 j
        ≡ (if t == j then (if i == max_index then i else i + 1) else next_of g j)
  unfolding append_event_unchecked
  next_of-append g g1 t i label same lt j = ground (
    arith,
    get_or-set {A = ℕ} g1.next_event_index_by_thread t j (if i == max_index then i else i + 1) 0 lt,
    same j,
  )

  -- On a well-formed graph add_event either puts the event at the end, under the least unused
  -- index that is not below the counter of the thread, records the index, moves the counter on and
  -- leaves the graph well formed, or throws a precondition error because the thread id is beyond
  -- the limit or the last index of the thread is used.
  pub add_event_lem :
      (g : ExecutionGraph V) (t : ℕ) (label : EventLabel V)
      → IsWellFormed g
      → Inserted g t label
          (add_event g t label)
          (λ i. (k : ℕ) → next_of g t ≤ k → k < i → Indices.contains (used_of g t) k ≡ true)
          (Indices.contains (used_of g t) max_index ≡ true)
  unfolding add_event next_event_index
  add_event_lem g t label v = elim (ensure_lem g t v) [
    | no_storage e big ↦ refused (rw e refl) (inl big)
    | stored g1 e s ↦
        elim (seek_lem (suc max_index) (used_of g1 t) (next_of g1 t)
          (s.well_formed.threads t).bounded (omega arith)) [
            | full f u ↦ refused (rw e (rw f refl)) (inr (rw (← s.same_used t) u))
            | found i f lo hi new least ↦
                let g2 : ExecutionGraph V = record g1 {
                  next_event_index_by_thread = set g1.next_event_index_by_thread t i;
                } in
                let v2 = bump-IsWellFormed g1 t i s.well_formed s.room lo hi in
                let room2 : t < length g2.next_event_index_by_thread =
                  omega (arith, s.room, length-set g1.next_event_index_by_thread t i) in
                let own = get_or-set {A = ℕ} g1.next_event_index_by_thread t t i 0 s.room in
                inserted (append_event_unchecked g2 t i label).0 i
                  (λ k low high.
                    rw (← s.same_used t) (least k (omega (arith, low, s.same_next t)) high))
                  (rw e (
                    rw f (
                      ap (λ (k : ℕ). ok ((append_event_unchecked g2 t i label).0, k))
                        (ap length s.same_events))))
                  (append-IsWellFormed g2 t i label v2 room2 (ground (arith, own)) hi new)
                  (ap
                    (λ (es : List (Event V)).
                      es ++ record { thread = t; index = i; label = label } ∷ [])
                    s.same_events)
                  s.same_reads (omega (arith, s.same_next t)) (rw (← s.same_used t) new)
                  (used_of-append g g2 t i label s.same_used
                    (omega (arith, s.room, s.well_formed.sizes)))
                  (next_of-append g g2 t i label
                    (λ j d. ground (
                      arith,
                      get_or-set {A = ℕ} g1.next_event_index_by_thread t j i 0 s.room,
                      s.same_next j,
                    ))
                    room2)
          ]
  ]

  -- On a well-formed graph and for an index of 32 bits, add_event_with_index either puts the event
  -- at the end, under the given index, which is unused and not below the counter of the thread,
  -- records the index, moves the counter on and leaves the graph well formed, or throws a
  -- precondition error because the thread id is beyond the limit, or the given index is used or
  -- below the counter.
  pub add_event_with_index_lem :
      (g : ExecutionGraph V) (t i : ℕ) (label : EventLabel V)
      → IsWellFormed g
      → i ≤ max_index
      → Inserted g t label
          (add_event_with_index g t i label)
          (λ j. j ≡ i)
          ((Indices.contains (used_of g t) i ≡ true) ⊎ (i < next_of g t))
  unfolding add_event_with_index
  add_event_with_index_lem g t i label v hi = elim (ensure_lem g t v) [
    | no_storage e big ↦ refused (rw e refl) (inl big)
    | stored g1 e s ↦ elim (Bool-cases (Indices.contains (used_of g1 t) i)) [
      | inl old ↦ refused (rw e (rw old refl)) (inr (inl (rw (← s.same_used t) old)))
      | inr new ↦ elim (Bool-cases (ltb i (next_of g1 t))) [
        | inl low ↦
            refused (rw e (rw new (rw low refl))) (inr (inr (ground (arith, s.same_next t))))
        | inr high ↦
            inserted (append_event_unchecked g1 t i label).0 i refl
              (rw e (
                rw new (
                  rw high (
                    ap (λ (k : ℕ). ok ((append_event_unchecked g1 t i label).0, k))
                      (ap length s.same_events)))))
              (append-IsWellFormed g1 t i label s.well_formed s.room (ground arith) hi new)
              (ap
                (λ (es : List (Event V)).
                  es ++ record { thread = t; index = i; label = label } ∷ [])
                s.same_events)
              s.same_reads (ground (arith, s.same_next t)) (rw (← s.same_used t) new)
              (used_of-append g g1 t i label s.same_used
                (omega (arith, s.room, s.well_formed.sizes)))
              (next_of-append g g1 t i label (λ j d. s.same_next j) s.room)
      ]
    ]
  ]

  -- A graph that `add_event` returns is well formed again.
  pub add_event-IsWellFormed :
      (g g' : ExecutionGraph V) (t id : ℕ) (label : EventLabel V)
      → IsWellFormed g
      → add_event g t label ≡ ok (g', id)
      → IsWellFormed g'
  add_event-IsWellFormed g g' t id label v h = elim (add_event_lem g t label v) [
    | inserted k i chosen e w at reads lo new used next ↦
        subst (λ (x : ExecutionGraph V). IsWellFormed x)
          (ap (λ (p : ExecutionGraph V × ℕ). p.0) (ok-injective (sym e ∙ h))) w
    | refused e why ↦ cc
  ]
