-- ===== src/Graph/ThreadOrder/Ids.antt =====
-- include/dpor/model/execution_graph.hpp, receive_event_ids and send_event_ids: the ids of the
-- events that pass a test.
use cpp_dpor.Prelude.{
  ℕ, zero, suc, ◌+◌, ◌-◌, ◌≤◌, ◌<◌, ◌≡◌, inl, inr, refl, Bool, true, List, [], ◌∷◌, ◌++◌, some,
  arith, ◌==◌, if◌then◌else◌, Bool-cases, length, get_elem?, elem, elem_of_get_elem?,
}
use cpp_dpor.Event.{Event}
use cpp_dpor.Graph.{ids_where}

module _ {ℓ} {V : Type ℓ} (test : Event V → Bool) where
  -- Event number `x - id` of the list passes the test.
  pub record Passes (id : ℕ) (es : List (Event V)) (x : ℕ) : Type ℓ where
    pub low : id ≤ x
    pub event : Event V
    pub at : get_elem? es (x - id) ≡ some event
    pub passed : test event ≡ true

  Passes-later :
      (id x : ℕ) (e : Event V) (es : List (Event V)) → Passes (suc id) es x → Passes id (e ∷ es) x
  Passes-later id x e es p =
      let shift : x - id ≡ suc (x - suc id) = omega (arith, p.low) in
      record { low = omega (arith, p.low); event = p.event; at = rw shift p.at; passed = p.passed }

  pub ids_where-Passes :
      (id : ℕ) (es : List (Event V)) (x : ℕ) → elem x (ids_where test id es) ≡ true → Passes id es x
  unfolding ids_where
  ids_where-Passes id [] x h = cc
  ids_where-Passes id (e ∷ es) x h = elim (Bool-cases (test e)) [
    | inl pass ↦ elim (Bool-cases (id == x)) [
      | inl same ↦
          let zero_off : x - id ≡ 0 = ground arith in
          record { low = ground arith; event = e; at = rw zero_off refl; passed = pass }
      | inr differ ↦ Passes-later id x e es (ids_where-Passes (suc id) es x (ground arith))
    ]
    | inr fail ↦ Passes-later id x e es (ids_where-Passes (suc id) es x (ground arith))
  ]

  pub Passes-ids_where :
      (id : ℕ) (es : List (Event V)) (k : ℕ) (e : Event V)
      → get_elem? es k ≡ some e
      → test e ≡ true
      → elem (id + k) (ids_where test id es) ≡ true
  unfolding ids_where
  Passes-ids_where id [] k e h p = cc
  Passes-ids_where id (d ∷ es) zero e h p = ground arith
  Passes-ids_where id (d ∷ es) (suc k) e h p =
      let shift : id + suc k ≡ suc id + k = omega arith in
      rw shift (ground (arith, Passes-ids_where (suc id) es k e h p))

  -- Each id stands in the list at most once, and ids ascend.
  ids_where-low :
      (id : ℕ) (es : List (Event V)) (q x : ℕ)
      → get_elem? (ids_where test id es) q ≡ some x
      → id ≤ x
  ids_where-low id es q x h = (ids_where-Passes id es x (elem_of_get_elem? _ q x h)).low

  pub ids_where-ascends :
      (id : ℕ) (es : List (Event V)) (p q x y : ℕ)
      → p < q
      → get_elem? (ids_where test id es) p ≡ some x
      → get_elem? (ids_where test id es) q ≡ some y
      → x < y
  unfolding ids_where
  ids_where-ascends id [] p q x y o h k = cc
  ids_where-ascends id (e ∷ es) p q x y o h k = elim (Bool-cases (test e)) [
    | inr fail ↦
        ids_where-ascends (suc id) es p q x y o (rw (fail, ids_where) at h)
          (rw (fail, ids_where) at k)
    | inl pass ↦
        first p q o (rw (pass, ids_where) at h) (rw (pass, ids_where) at k)
          (λ p' q' o' h' k'. ids_where-ascends (suc id) es p' q' x y o' h' k')
  ]
    where
      first :
          (p q : ℕ)
          → p < q
          → get_elem? (id ∷ ids_where test (suc id) es) p ≡ some x
          → get_elem? (id ∷ ids_where test (suc id) es) q ≡ some y
          → ((p' q' : ℕ)
              → p' < q'
              → get_elem? (ids_where test (suc id) es) p' ≡ some x
              → get_elem? (ids_where test (suc id) es) q' ≡ some y
              → x < y)
          → x < y
      first zero zero o h k ih = absurd (omega arith)
      first (suc p) zero o h k ih = absurd (omega arith)
      first zero (suc q) o h k ih = ground (arith, ids_where-low (suc id) es q y k)
      first (suc p) (suc q) o h k ih = ih p q (omega arith) h k

  -- One more event at the end.
  pub ids_where-append :
      (id : ℕ) (es : List (Event V)) (e : Event V)
      → ids_where test id (es ++ e ∷ [])
        ≡ (if test e then ids_where test id es ++ (id + length es) ∷ [] else ids_where test id es)
  unfolding ids_where
  ids_where-append id [] e = let here : id + 0 ≡ id = omega arith in rw here refl
  ids_where-append id (d ∷ es) e =
      let next : id + suc (length es) ≡ suc id + length es = omega arith in
      rw next (rw (ids_where-append (suc id) es e) (ground arith))

  pub ids_where-nil : (id : ℕ) → ids_where test id [] ≡ []
  unfolding ids_where
  ids_where-nil id = refl
