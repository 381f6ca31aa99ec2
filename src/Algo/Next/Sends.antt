-- ===== src/Algo/Next/Sends.antt =====
-- include/dpor/algo/dpor.hpp, has_compatible_unread_send, compatible_unread_send_ids and compatible_unread_send_ids.
use cpp_dpor.Prelude.{
  ℕ, ◌≡◌, ◌↔◌, inl, inr, refl, sym, ap, ◌∙◌, Bool, true, false, ◌&&◌, List, [], ◌∷◌, some, arith,
  ◌==◌, ==→eq, Bool-cases, Option-cases, get_or, elem,
}
use cpp_dpor.Event.{Event, ReceiveLabel, SendLabel, as_send, accepts}
use cpp_dpor.Exploration.{ExplorationGraph, event_at}
use cpp_dpor.Exploration.Queries.{unread_send_event_ids, filter, any, any_unread_send}
use cpp_dpor.Algo.Next.{is_compatible, has_compatible_unread_send, compatible_unread_send_ids}

module _ {ℓ} {V : Type ℓ} (g : ExplorationGraph V) where
  -- A send to the thread that the receive accepts.
  pub record Suits (t : ℕ) (r : ReceiveLabel V) (id : ℕ) : Type ℓ where
    pub sender : Event V
    pub sent : SendLabel V
    pub is_sender : event_at g id ≡ some sender
    pub is_sent : as_send sender ≡ some sent
    pub arrives : sent.destination ≡ t
    pub accepted : accepts r sent.value ≡ true

  is_compatible-Suits :
      (t : ℕ) (r : ReceiveLabel V) (id : ℕ) → (is_compatible g t r id ≡ true) ↔ Suits t r id
  is_compatible-Suits t r id = elim (Option-cases (event_at g id)) [
    | inl none_there ↦ (
      λ h. absurd (cc (rw (none_there, is_compatible) at h)),
      λ s. absurd (cc (none_there, s.is_sender)),
    )
    | inr (e, there) ↦ elim (Option-cases (as_send e)) [
      | inl other ↦ (
        λ h. absurd (cc (rw (there, other, is_compatible) at h)),
        λ s. absurd (cc (there, s.is_sender, other, s.is_sent)),
      )
      | inr (sent, is_sent) ↦ (
        λ h.
            let k = rw (there, is_sent, is_compatible) at h in
            record {
              sender = e;
              sent = sent;
              is_sender = there;
              is_sent = is_sent;
              arrives = ground (arith, k);
              accepted = ground (arith, k);
            },
        λ s.
            let same_event : s.sender ≡ e = cc (there, s.is_sender) in
            let same : s.sent ≡ sent = cc (is_sent, s.is_sent, same_event) in
            rw (there, is_sent, is_compatible)
              (ground (
                arith,
                ap (λ (x : SendLabel V). x.destination) same,
                s.arrives,
                ap (λ (x : SendLabel V). accepts r x.value) same,
                s.accepted,
              )),
      )
    ]
  ]

  -- An unread send that the receive can read.
  pub record Serves (t : ℕ) (r : ReceiveLabel V) (id : ℕ) : Type ℓ where
    pub among : elem id g.send_event_ids ≡ true
    pub unread : get_or g.unread_send_mask id false ≡ true
    pub suits : Suits t r id

  abbrev pub Served : ℕ → ReceiveLabel V → Type ℓ
  Served t r = (id : ℕ) × Serves t r id

  any-true :
      (p : ℕ → Bool) (ids : List ℕ)
      → any p ids ≡ true
      → (id : ℕ) × (elem id ids ≡ true) × (p id ≡ true)
  unfolding any
  any-true p [] h = cc
  any-true p (id ∷ ids) h = elim (Bool-cases (p id)) [
    | inl passes ↦ (id, ground arith, passes)
    | inr other ↦
        let (x, among, passes) = any-true p ids (rw other at h) in
        (x, ground (arith, among), passes)
  ]

  any_of_elem :
      (p : ℕ → Bool) (ids : List ℕ) (id : ℕ) → elem id ids ≡ true → p id ≡ true → any p ids ≡ true
  unfolding any
  any_of_elem p [] id h k = cc
  any_of_elem p (x ∷ ids) id h k = elim (Bool-cases (x == id)) [
    | inl same ↦ rw (ap p (==→eq x id same) ∙ k) refl
    | inr other ↦ ground (arith, any_of_elem p ids id (rw other at h) k)
  ]

  pub has_compatible_unread_send-Served :
      (t : ℕ) (r : ReceiveLabel V) → (has_compatible_unread_send g t r ≡ true) ↔ Served t r
  unfolding has_compatible_unread_send any_unread_send
  has_compatible_unread_send-Served t r = (
    λ h.
        let (id, among, k) = any-true _ g.send_event_ids h in
        (
          id,
          record {
            among = among;
            unread = ground (arith, k);
            suits = (is_compatible-Suits t r id).0 (ground (arith, k));
          },
        ),
    λ (id, s).
        any_of_elem _ g.send_event_ids id s.among
          (ground (arith, s.unread, (is_compatible-Suits t r id).1 s.suits)),
  )

  elem-filter :
      (p : ℕ → Bool) (ids : List ℕ) (id : ℕ) → elem id (filter p ids) ≡ (elem id ids && p id)
  unfolding filter
  elem-filter p [] id = refl
  elem-filter p (x ∷ xs) id = elim (Bool-cases (x == id)) [
    | inl same ↦
        let agrees : p id ≡ p x = ap p (sym (==→eq x id same)) in
        ground (arith, same, agrees, elem-filter p xs id)
    | inr other ↦ ground (arith, elem-filter p xs id)
  ]

  compatible_unread_send_ids-Serves :
      (t : ℕ) (r : ReceiveLabel V) (id : ℕ)
      → (elem id (compatible_unread_send_ids g t r) ≡ true) ↔ Serves t r id
  unfolding compatible_unread_send_ids unread_send_event_ids
  compatible_unread_send_ids-Serves t r id =
      let listed = elem-filter (is_compatible g t r) (unread_send_event_ids g) id in
      let unread = elem-filter (λ x. get_or g.unread_send_mask x false) g.send_event_ids id in
      (
        λ h. record {
          among = ground (arith, h, listed, unread);
          unread = ground (arith, h, listed, unread);
          suits = (is_compatible-Suits t r id).0 (ground (arith, h, listed, unread));
        },
        λ s.
            ground
              (arith, listed, unread, s.among, s.unread, (is_compatible-Suits t r id).1 s.suits),
      )

  -- compatible_unread_send_ids lists exactly the unread sends to the thread whose value the
  -- receive accepts, and has_compatible_unread_send answers yes exactly when there is one.
  pub compatible_unread_send_ids_lem :
      (t : ℕ) (r : ReceiveLabel V)
      → ((id : ℕ) → (elem id (compatible_unread_send_ids g t r) ≡ true) ↔ Serves t r id)
        × ((has_compatible_unread_send g t r ≡ true) ↔ Served t r)
  compatible_unread_send_ids_lem t r =
      (compatible_unread_send_ids-Serves t r, has_compatible_unread_send-Served t r)
