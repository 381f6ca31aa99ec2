-- ===== src/Algo/Choices/Laws.antt =====
-- include/dpor/algo/dpor.hpp, erase_duplicate_nd_choices, against a description from the back: the last
-- choice stays unless it stands before.
use cpp_dpor.Prelude.{
  ◌≡◌, inl, inr, refl, sym, true, ◌||◌, List, [], ◌∷◌, ◌++◌, arith, if◌then◌else◌, Bool-cases,
}
use cpp_dpor.Algo.Config.{Comparison}
use cpp_dpor.Algo.Choices.{is_among, keep_new, erase_duplicate_nd_choices}

module _ {ℓ} {V : Type ℓ} (values : Comparison V) where
  is_among-append :
      (v : V) (xs ys : List V)
      → is_among values v (xs ++ ys) ≡ (is_among values v xs || is_among values v ys)
  unfolding is_among
  is_among-append v [] ys = refl
  is_among-append v (x ∷ xs) ys = ground (arith, is_among-append v xs ys)

  -- The loop over one more choice at the end.
  keep_new-append :
      (kept xs : List V) (v : V)
      → keep_new values kept (xs ++ v ∷ []) ≡ (
          if is_among values v (keep_new values kept xs)
          then keep_new values kept xs
          else keep_new values kept xs ++ v ∷ [])
  unfolding keep_new
  keep_new-append kept [] v = refl
  keep_new-append kept (x ∷ xs) v = elim (Bool-cases (is_among values x kept)) [
    | inl old ↦ rw old (keep_new-append kept xs v)
    | inr new ↦ rw new (keep_new-append (kept ++ x ∷ []) xs v)
  ]

  -- Where equality is an equivalence, a value stands among the kept ones if an equal one does.
  pub record IsEquality : Type ℓ where
    pub reflexive : (v : V) → values.same v v ≡ true
    pub symmetric : (v w : V) → values.same v w ≡ true → values.same w v ≡ true
    pub transitive :
        (u v w : V) → values.same u v ≡ true → values.same v w ≡ true → values.same u w ≡ true

  module _ (equality : IsEquality) where
    is_among-same :
        (v w : V) (xs : List V)
        → values.same v w ≡ true
        → is_among values v xs ≡ true
        → is_among values w xs ≡ true
    unfolding is_among
    is_among-same v w [] same h = cc
    is_among-same v w (x ∷ xs) same h = elim (Bool-cases (values.same x v)) [
      | inl here ↦ rw (equality.transitive x v w here same) refl
      | inr other ↦
          let rest = is_among-same v w xs same (rw (other, is_among) at h) in
          elim (Bool-cases (values.same x w)) [ inl e ↦ rw e refl | inr e ↦ rw e rest ]
    ]

    keep_new-is_among :
        (kept xs : List V) (v : V)
        → is_among values v (keep_new values kept xs)
          ≡ (is_among values v kept || is_among values v xs)
    unfolding keep_new is_among
    keep_new-is_among kept [] v = ground arith
    keep_new-is_among kept (x ∷ xs) v = elim (Bool-cases (is_among values x kept)) [
      | inl old ↦
          rw (old, keep_new-is_among kept xs v)
            (elim (Bool-cases (values.same x v)) [
              | inl same ↦ rw (same, is_among-same x v kept same old) refl
              | inr other ↦ rw other refl
            ])
      | inr new ↦
          rw (new, keep_new-is_among (kept ++ x ∷ []) xs v, is_among-append v kept (x ∷ []))
            (ground arith)
    ]

    -- Where equality is an equivalence relation, erase_duplicate_nd_choices keeps a last choice if
    -- no equal one stands before it and drops it otherwise, and the choices before it come out as
    -- they do without it; an equal one of a value stands in the result exactly when one stands in
    -- the choices.
    pub erase_duplicate_nd_choices_lem :
        (choices : List V) (v : V)
        → (erase_duplicate_nd_choices values (choices ++ v ∷ []) ≡ (
            if is_among values v choices
            then erase_duplicate_nd_choices values choices
            else erase_duplicate_nd_choices values choices ++ v ∷ []))
          × (is_among values v (erase_duplicate_nd_choices values choices)
              ≡ is_among values v choices)
    unfolding erase_duplicate_nd_choices is_among
    erase_duplicate_nd_choices_lem choices v = (
      rw (sym (keep_new-is_among [] choices v)) (keep_new-append [] choices v),
      keep_new-is_among [] choices v,
    )
