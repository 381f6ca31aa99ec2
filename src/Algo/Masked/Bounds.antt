-- ===== src/Algo/Masked/Bounds.antt =====
-- include/dpor/algo/dpor.hpp, MaskedPorfContext::reset: the ids in its tables.
use cpp_dpor.Prelude.{
  ℕ, zero, suc, ◌+◌, ◌≤◌, ◌<◌, ◌≡◌, ◌⊎◌, inl, inr, refl, sym, ap, ◌∙◌, Bool, true, false, not, ◌&&◌,
  ◌||◌, List, [], ◌∷◌, ◌++◌, Option, some, none, arith, ltb, ◌==◌, ltb→lt, ltb-false→le, ==→eq,
  Bool-cases, Option-cases, length, get_elem?, get_or, length-append, length-set, length-replicate,
  get_or-replicate, get_or-of_le, get_or-set, get_or-put, elem, elem-append,
}
use mathlib.Core.Path.{subst}
use cpp_dpor.Errors.{ok, throw_if, >>=-eq-ok, ok-injective}
use cpp_dpor.Event.{Event}
use cpp_dpor.Graph.ReadsFrom.{ReadsFromSource, from_send, bottom, to_list}
use cpp_dpor.Exploration.{ExplorationGraph, event_at, event_count}
use cpp_dpor.Algo.Masked.{
  MaskedPorfContext, keeps, extras_of, fresh_context, at_once, enter_event, enter_events,
  enter_read, enter_reads, reset, successors_of,
}

-- The ids that the search may come upon.
pub record InBounds (n : ℕ) (m : MaskedPorfContext) : Type 0 where
  pub threads : (t i b : ℕ) → get_elem? (get_or m.kept_events_by_thread t []) i ≡ some b → b < n
  pub consumers : (a b : ℕ) → get_or m.rf_consumer a none ≡ some b → b < n
  pub extras : (a b : ℕ) → elem b (extras_of a m.extra_rf_consumers) ≡ true → b < n

keeps-lt : (mask : List Bool) (id : ℕ) → keeps mask id ≡ true → id < length mask
unfolding keeps
keeps-lt mask id h = elim (Bool-cases (ltb id (length mask))) [
  | inl below ↦ ltb→lt id (length mask) below
  | inr beyond ↦ cc (get_or-of_le mask id false (ltb-false→le id (length mask) beyond))
]

get_elem?-append :
    (xs : List ℕ) (x i b : ℕ)
    → get_elem? (xs ++ x ∷ []) i ≡ some b
    → (get_elem? xs i ≡ some b) ⊎ (x ≡ b)
get_elem?-append [] x zero b h = inr cc
get_elem?-append [] x (suc i) b h = cc
get_elem?-append (y ∷ xs) x zero b h = inl h
get_elem?-append (y ∷ xs) x (suc i) b h = get_elem?-append xs x i b h

extras_of-append :
    (a send_id recv_id b : ℕ) (extras : List (ℕ × ℕ))
    → elem b (extras_of a (extras ++ (send_id, recv_id) ∷ []))
      ≡ (elem b (extras_of a extras) || (send_id == a && recv_id == b))
unfolding extras_of
extras_of-append a send_id recv_id b [] = ground arith
extras_of-append a send_id recv_id b ((s, r) ∷ extras) =
    ground (arith, extras_of-append a send_id recv_id b extras)

pub length-extras_of : (a : ℕ) (extras : List (ℕ × ℕ)) → length (extras_of a extras) ≤ length extras
unfolding extras_of
length-extras_of a [] = omega arith
length-extras_of a ((s, r) ∷ extras) = ground (arith, length-extras_of a extras)

length-at_once : (o : Option ℕ) → length (at_once o) ≤ 1
length-at_once none = omega arith
length-at_once (some a) = omega arith

elem-at_once : (o : Option ℕ) (b : ℕ) → elem b (at_once o) ≡ true → o ≡ some b
elem-at_once none b h = cc
elem-at_once (some a) b h = ap (λ (x : ℕ). some x) (==→eq a b (ground arith))

fresh_context-InBounds : (n : ℕ) → InBounds n (fresh_context n)
unfolding extras_of
fresh_context-InBounds n = record {
  threads = λ t i b h. cc;
  consumers = λ a b h. cc (get_or-replicate {A = Option ℕ} n a none);
  extras = λ a b h. cc;
}

module _ {ℓ} {V : Type ℓ} (n : ℕ) where
  enter_event-InBounds :
      (fifo : Bool) (id : ℕ) (e : Event V) (m : MaskedPorfContext)
      → id < n
      → InBounds n m
      → InBounds n (enter_event fifo id e m)
  unfolding enter_event
  enter_event-InBounds fifo id e m below h = record {
    threads = λ t i b at.
        let events = get_or m.kept_events_by_thread e.thread [] in
        let row = get_or-put m.kept_events_by_thread e.thread t [] (events ++ id ∷ []) in
        let found = ap (λ (xs : List ℕ). get_elem? xs i) (sym row) ∙ at in
        elim (Bool-cases (e.thread == t)) [
          | inl same ↦ elim (get_elem?-append events id i b (rw same at found)) [
            | inl old ↦ h.threads e.thread i b old
            | inr new ↦ omega (arith, new)
          ]
          | inr other ↦ h.threads t i b (rw other at found)
        ];
    consumers = h.consumers;
    extras = h.extras;
  }

  enter_events-InBounds :
      (mask : List Bool) (fifo : Bool) (id : ℕ) (events : List (Event V)) (m : MaskedPorfContext)
      → id + length events ≤ n
      → InBounds n m
      → InBounds n (enter_events mask fifo id events m)
  unfolding enter_events
  enter_events-InBounds mask fifo id [] m below h = h
  enter_events-InBounds mask fifo id (e ∷ events) m below h = elim (Bool-cases (keeps mask id)) [
    | inl kept ↦ rw kept (
        enter_events-InBounds mask fifo (suc id) events (enter_event fifo id e m) (omega arith)
          (enter_event-InBounds fifo id e m (omega arith) h))
    | inr dropped ↦ rw dropped (enter_events-InBounds mask fifo (suc id) events m (omega arith) h)
  ]

  enter_read-InBounds :
      (g : ExplorationGraph V) (fifo : Bool) (recv_id send_id : ℕ) (m : MaskedPorfContext)
      → recv_id < n
      → send_id < length m.rf_consumer
      → InBounds n m
      → InBounds n (enter_read g fifo recv_id send_id m)
        × (length (enter_read g fifo recv_id send_id m).rf_consumer ≡ length m.rf_consumer)
  unfolding enter_read
  enter_read-InBounds g fifo recv_id send_id m below room h =
      elim (Option-cases (get_or m.rf_consumer send_id none)) [
        | inl free ↦
            rw (free, enter_read)
              (
                record {
                  threads = h.threads;
                  consumers = λ a b at.
                      let slot = get_or-set m.rf_consumer send_id a (some recv_id) none room in
                      elim (Bool-cases (send_id == a)) [
                        | inl same ↦
                            let is_b : some recv_id ≡ some b = rw same at (sym slot ∙ at) in
                            ground (arith, is_b)
                        | inr other ↦ h.consumers a b (rw other at (sym slot ∙ at))
                      ];
                  extras = h.extras;
                },
                length-set m.rf_consumer send_id (some recv_id),
              )
        | inr (r, taken) ↦
            rw (taken, enter_read)
              (
                record {
                  threads = h.threads;
                  consumers = h.consumers;
                  extras = λ a b at. ground (
                    arith,
                    h.extras a b,
                    extras_of-append a send_id recv_id b m.extra_rf_consumers,
                    ==→eq recv_id b,
                  );
                },
                refl,
              )
      ]

  enter_reads-InBounds :
      (g : ExplorationGraph V) (mask : List Bool) (fifo : Bool)
      (entries : List (ℕ × ReadsFromSource)) (m : MaskedPorfContext)
      → length mask ≡ n
      → length m.rf_consumer ≡ n
      → InBounds n m
      → InBounds n (enter_reads g mask fifo entries m)
  unfolding enter_reads
  enter_reads-InBounds g mask fifo [] m size room h = h
  enter_reads-InBounds g mask fifo ((recv_id, bottom) ∷ entries) m size room h =
      enter_reads-InBounds g mask fifo entries m size room h
  enter_reads-InBounds g mask fifo ((recv_id, from_send send_id) ∷ entries) m size room h =
      elim (Bool-cases (keeps mask recv_id && keeps mask send_id)) [
        | inl kept ↦
            let (h', same) =
              enter_read-InBounds g fifo recv_id send_id m
                (omega (arith, keeps-lt mask recv_id (ground (arith, kept)), size))
                (omega (arith, keeps-lt mask send_id (ground (arith, kept)), size, room)) h in
            rw kept (enter_reads-InBounds g mask fifo entries _ size (same ∙ room) h')
        | inr dropped ↦ rw dropped (enter_reads-InBounds g mask fifo entries m size room h)
      ]

  enter_events-rf_consumer :
      (mask : List Bool) (fifo : Bool) (id : ℕ) (events : List (Event V)) (m : MaskedPorfContext)
      → (enter_events mask fifo id events m).rf_consumer ≡ m.rf_consumer
  unfolding enter_events enter_event
  enter_events-rf_consumer mask fifo id [] m = refl
  enter_events-rf_consumer mask fifo id (e ∷ events) m = elim (Bool-cases (keeps mask id)) [
    | inl kept ↦ rw (kept, enter_events) (enter_events-rf_consumer mask fifo (suc id) events _)
    | inr dropped ↦
        rw (dropped, enter_events) (enter_events-rf_consumer mask fifo (suc id) events m)
  ]

module _ {ℓ} {V : Type ℓ} (g : ExplorationGraph V) (mask : List Bool) (fifo : Bool)
    (m : MaskedPorfContext) (made : reset g mask fifo ≡ ok m) where
  pub reset-InBounds : InBounds (event_count g) m
  unfolding reset
  reset-InBounds =
      let (u, sized, f) = >>=-eq-ok (throw_if (not (length mask == event_count g)) _) _ made in
      let n = event_count g in
      let start : MaskedPorfContext = enter_events mask fifo 0 g.graph.events (fresh_context n) in
      subst (InBounds n) (ok-injective f) (
        enter_reads-InBounds n g mask fifo (to_list g.graph.reads_from) start (ground arith)
          (ap (length {A = Option ℕ}) (enter_events-rf_consumer n mask fifo 0 g.graph.events _)
            ∙ length-replicate n none)
          (enter_events-InBounds n mask fifo 0 g.graph.events (fresh_context n) (omega arith)
            (fresh_context-InBounds n)))

  -- The event after `a` among the kept ones of its thread.
  next_kept : ℕ → Option ℕ
  next_kept a =
      let thread : ℕ = elim (event_at g a) [ none ↦ 0 | some e ↦ e.thread ] in
      elim (get_or m.kept_position_in_thread a none) [
        | none ↦ none
        | some position ↦ get_elem? (get_or m.kept_events_by_thread thread []) (position + 1)
      ]

  next_kept-lt : (a b : ℕ) → next_kept a ≡ some b → b < event_count g
  unfolding next_kept
  next_kept-lt a b h = elim (Option-cases (get_or m.kept_position_in_thread a none)) [
    | inl dropped ↦ cc (rw (dropped, next_kept) at h)
    | inr (position, at) ↦
        reset-InBounds.threads (elim (event_at g a) [ none ↦ 0 | some e ↦ e.thread ]) (position + 1)
          b (rw (at, next_kept) at h)
  ]

  pub successors_of-lt : (a b : ℕ) → elem b (successors_of g m a) ≡ true → b < event_count g
  unfolding successors_of next_kept
  successors_of-lt a b h =
      let consumer = get_or m.rf_consumer a none in
      let extra = extras_of a m.extra_rf_consumers in
      elim (Bool-cases (elem b (at_once (next_kept a)))) [
        | inl next ↦ next_kept-lt a b (elem-at_once (next_kept a) b next)
        | inr other ↦ elim (Bool-cases (elem b (at_once consumer))) [
          | inl read ↦ reset-InBounds.consumers a b (elem-at_once consumer b read)
          | inr rest ↦ reset-InBounds.extras a b (
              ground (
                arith,
                elem-append b (at_once (next_kept a)) (at_once consumer ++ extra),
                elem-append b (at_once consumer) extra,
              ))
        ]
      ]

  pub length-successors_of :
      (a : ℕ) → length (successors_of g m a) ≤ length m.extra_rf_consumers + 2
  unfolding successors_of next_kept
  length-successors_of a =
      let consumer = get_or m.rf_consumer a none in
      let extra = extras_of a m.extra_rf_consumers in
      omega (
        arith,
        length-append (at_once (next_kept a)) (at_once consumer ++ extra),
        length-append (at_once consumer) extra,
        length-at_once (next_kept a),
        length-at_once consumer,
        length-extras_of a m.extra_rf_consumers,
      )

  pub kept_event-lt : (id : ℕ) → keeps mask id ≡ true → id < event_count g
  unfolding reset
  kept_event-lt id kept =
      let (u, sized, f) = >>=-eq-ok (throw_if (not (length mask == event_count g)) _) _ made in
      ground (arith, keeps-lt mask id kept)
