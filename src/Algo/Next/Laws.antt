-- ===== src/Algo/Next/Laws.antt =====
-- include/dpor/algo/dpor.hpp, compute_next_event, against the first thread that gives an event.
use cpp_dpor.Prelude.{
  ℕ, ◌≤◌, ◌<◌, ◌≡◌, ◌⊎◌, inl, inr, sym, ap, ◌∙◌, Bool, true, false, not, ◌&&◌, ◌||◌, List, [], ◌∷◌,
  ◌++◌, Option, some, none, arith, ◌==◌, Bool-cases, Option-cases, All,
}
use mathlib.Core.Path.{subst}
use cpp_dpor.Errors.{Error, ok, throw, >>=-eq-ok, >>=-eq-throw, ok-injective}
use cpp_dpor.Event.{EventLabel}
use cpp_dpor.Program.{ThreadMap}
use cpp_dpor.Exploration.{ExplorationGraph}
use cpp_dpor.Exploration.Queries.{thread_is_terminated, thread_event_count}
use cpp_dpor.Algo.Config.{ThreadFunction, returns}
use cpp_dpor.Algo.Next.{
  NextEventResult, next_label, ask_thread, at_limit, next_from, compute_next_event,
}
use cpp_dpor.Algo.Next.Given.{
  is_full, at_limit-is_full, Called, ask_thread-Called, Becomes, next_label-Becomes, Fails,
  ask_thread-Fails, next_label-Fails,
}

module _ {ℓ} {V : Type ℓ} (program : ThreadMap (ThreadFunction V)) (g : ExplorationGraph V)
    (max_thread_events : ℕ) where
  -- The thread may have no more events, or may have one.
  abbrev pub IsCapped : ℕ → Type 0
  IsCapped t = (0 < max_thread_events) × (max_thread_events ≤ thread_event_count g t)

  abbrev pub IsBelow : ℕ → Type 0
  IsBelow t = (max_thread_events ≡ 0) ⊎ (thread_event_count g t < max_thread_events)

  at_limit-IsCapped : (t : ℕ) → at_limit g max_thread_events t ≡ true → IsCapped t
  at_limit-IsCapped t h =
      let full = sym (at_limit-is_full program g max_thread_events t) ∙ h in
      (ground (arith, full), ground (arith, full))

  at_limit-IsBelow : (t : ℕ) → at_limit g max_thread_events t ≡ false → IsBelow t
  at_limit-IsBelow t h =
      let free = sym (at_limit-is_full program g max_thread_events t) ∙ h in
      elim (Bool-cases (max_thread_events == 0)) [
        | inl unlimited ↦ inl (ground arith)
        | inr limited ↦ inr (ground (arith, free))
      ]

  -- A thread that gives no event: it has ended, it has as many events as it may have, or its function
  -- says that it is done.
  pub data GivesNone (t : ℕ) : Type ℓ where
    ended : thread_is_terminated g t ≡ true → GivesNone t
    capped : thread_is_terminated g t ≡ false → IsCapped t → GivesNone t
    is_done :
        thread_is_terminated g t ≡ false
        → IsBelow t
        → Called program g max_thread_events t (returns none)
        → GivesNone t

  -- Whether a thread is not asked for its events because of the limit.
  abbrev pub is_capped : ℕ → Bool
  is_capped t = not (thread_is_terminated g t) && is_full program g max_thread_events t

  abbrev pub any_capped : List ℕ → Bool
  any_capped [] = false
  any_capped (t ∷ ts) = is_capped t || any_capped ts

  -- A thread that gives an event: what becomes of the label that its function returns.
  pub record Gives (t : ℕ) (label : EventLabel V) : Type ℓ where
    pub runs : thread_is_terminated g t ≡ false
    pub below : IsBelow t
    pub answer : EventLabel V
    pub asked : Called program g max_thread_events t (returns (some answer))
    pub given : Becomes program g max_thread_events t answer label

  pub data IsNext (suppressed : Bool) : List ℕ → NextEventResult V → Type ℓ where
    none_left :
        (ts : List ℕ)
        → All GivesNone ts
        → IsNext suppressed ts
            (record { next = none; suppressed_by_thread_event_limit = suppressed || any_capped ts })
    first :
        (before : List ℕ) (t : ℕ) (after : List ℕ) (label : EventLabel V)
        → All GivesNone before
        → Gives t label
        → IsNext suppressed (before ++ t ∷ after) (record {
          next = some (t, label);
          suppressed_by_thread_event_limit = suppressed || any_capped before;
        })

  or_assoc : (a b c : Bool) → ((a || b) || c) ≡ (a || (b || c))
  or_assoc a b c = ground arith

  -- One more thread in front that gives no event.
  skip :
      (suppressed : Bool) (t : ℕ) (ts : List ℕ) (r : NextEventResult V)
      → GivesNone t
      → IsNext (suppressed || is_capped t) ts r
      → IsNext suppressed (t ∷ ts) r
  skip suppressed t us r gives (none_left ts all) =
      subst
        (λ (b : Bool).
          IsNext suppressed (t ∷ ts) (record { next = none; suppressed_by_thread_event_limit = b }))
        (sym (or_assoc suppressed (is_capped t) (any_capped ts))) (none_left (t ∷ ts) (gives, all))
  skip suppressed t us r gives (first before u after label all given) =
      subst
        (λ (b : Bool).
          IsNext suppressed (t ∷ (before ++ u ∷ after))
            (record { next = some (u, label); suppressed_by_thread_event_limit = b }))
        (sym (or_assoc suppressed (is_capped t) (any_capped before)))
        (first (t ∷ before) u after label (gives, all) given)

  or_false : (a : Bool) → a ≡ (a || false)
  or_false a = ground arith

  flag_of_full :
      (suppressed : Bool) (t : ℕ)
      → thread_is_terminated g t ≡ false
      → at_limit g max_thread_events t ≡ true
      → true ≡ (suppressed || is_capped t)
  flag_of_full suppressed t runs full =
      let same = sym (at_limit-is_full program g max_thread_events t) ∙ full in
      ground (arith, runs, same)

  flag_of_below :
      (suppressed : Bool) (t : ℕ)
      → thread_is_terminated g t ≡ false
      → at_limit g max_thread_events t ≡ false
      → suppressed ≡ (suppressed || is_capped t)
  flag_of_below suppressed t runs below =
      let same = sym (at_limit-is_full program g max_thread_events t) ∙ below in
      ground (arith, runs, same)

  next_from-IsNext :
      (suppressed : Bool) (ts : List ℕ) (r : NextEventResult V)
      → next_from program g max_thread_events suppressed ts ≡ ok r
      → IsNext suppressed ts r
  unfolding next_from
  next_from-IsNext suppressed [] r ran = subst (IsNext suppressed []) (ok-injective ran) (
      subst
        (λ (b : Bool).
          IsNext suppressed [] (record { next = none; suppressed_by_thread_event_limit = b }))
        (sym (or_false suppressed)) (none_left [] tt))
  next_from-IsNext suppressed (t ∷ ts) r ran = elim (Bool-cases (thread_is_terminated g t)) [
    | inl has_ended ↦ skip suppressed t ts r (ended has_ended) (
        subst (λ (b : Bool). IsNext b ts r)
          (or_false suppressed ∙ ap (◌||◌ suppressed) (ground (arith, has_ended)))
          (next_from-IsNext suppressed ts r (rw has_ended at ran)))
    | inr runs ↦ elim (Bool-cases (at_limit g max_thread_events t)) [
      | inl full ↦ skip suppressed t ts r (capped runs (at_limit-IsCapped t full)) (
          subst (λ (b : Bool). IsNext b ts r) (flag_of_full suppressed t runs full)
            (next_from-IsNext true ts r (rw (runs, full) at ran)))
      | inr below ↦
          let (answer, asked, f) =
            >>=-eq-ok (ask_thread program g t (thread_event_count g t)) _
              (rw (runs, below) at ran) in
          elim (Option-cases answer) [
            | inl done_with ↦
                skip suppressed t ts r
                  (is_done runs (at_limit-IsBelow t below) (
                    ask_thread-Called program g max_thread_events t none
                      (asked ∙ ap (λ (o : Option (EventLabel V)). ok o) done_with)))
                  (subst (λ (b : Bool). IsNext b ts r) (flag_of_below suppressed t runs below)
                    (next_from-IsNext suppressed ts r (rw done_with at f)))
            | inr (returned, some_label) ↦
                let (label, given, last) =
                  >>=-eq-ok (next_label g t returned) _ (rw some_label at f) in
                subst (IsNext suppressed (t ∷ ts)) (ok-injective last) (
                  subst
                    (λ (b : Bool).
                      IsNext suppressed (t ∷ ts)
                        (record { next = some (t, label); suppressed_by_thread_event_limit = b }))
                    (sym (or_false suppressed))
                    (first [] t ts label tt (record {
                      runs = runs;
                      below = at_limit-IsBelow t below;
                      answer = returned;
                      asked =
                          ask_thread-Called program g max_thread_events t (some returned)
                            (asked ∙ ap (λ (o : Option (EventLabel V)). ok o) some_label);
                      given = next_label-Becomes program g max_thread_events t returned label given;
                    })))
          ]
    ]
  ]

  -- The event that compute_next_event returns is that of the first thread which gives one: a
  -- thread that has not ended and has fewer events than the limit, if there is one, whose
  -- function, called on its trace and the number of its events, returned a label. The event is
  -- this label, but block for a blocking receive when no unread send goes to the thread with a
  -- value that it accepts. With no such thread it returns none. It says that the limit suppressed
  -- an event exactly when it passed over a thread that has not ended but has as many events as the
  -- limit.
  pub compute_next_event_lem :
      (thread_ids : List ℕ) (r : NextEventResult V)
      → compute_next_event program g thread_ids max_thread_events ≡ ok r
      → IsNext false thread_ids r
  unfolding compute_next_event
  compute_next_event_lem thread_ids r ran = next_from-IsNext false thread_ids r ran

  -- Which thread an error comes from.
  pub data IsThrown (e : Error) : List ℕ → Type ℓ where
    first_fails :
        (before : List ℕ) (t : ℕ) (after : List ℕ)
        → All GivesNone before
        → thread_is_terminated g t ≡ false
        → IsBelow t
        → Fails program g max_thread_events t e
        → IsThrown e (before ++ t ∷ after)

  pass : (e : Error) (t : ℕ) (ts : List ℕ) → GivesNone t → IsThrown e ts → IsThrown e (t ∷ ts)
  pass e t us gives (first_fails before u after all runs below fails) =
      first_fails (t ∷ before) u after (gives, all) runs below fails

  next_from-IsThrown :
      (suppressed : Bool) (ts : List ℕ) (e : Error)
      → next_from program g max_thread_events suppressed ts ≡ throw e
      → IsThrown e ts
  unfolding next_from
  next_from-IsThrown suppressed [] e ran = cc
  next_from-IsThrown suppressed (t ∷ ts) e ran = elim (Bool-cases (thread_is_terminated g t)) [
    | inl has_ended ↦
        pass e t ts (ended has_ended) (next_from-IsThrown suppressed ts e (rw has_ended at ran))
    | inr runs ↦ elim (Bool-cases (at_limit g max_thread_events t)) [
      | inl full ↦
          pass e t ts (capped runs (at_limit-IsCapped t full))
            (next_from-IsThrown true ts e (rw (runs, full) at ran))
      | inr below ↦
          elim (>>=-eq-throw (ask_thread program g t (thread_event_count g t)) _
            (rw (runs, below) at ran)) [
              | inl failed ↦
                  first_fails [] t ts tt runs (at_limit-IsBelow t below)
                    (ask_thread-Fails program g max_thread_events t e failed)
              | inr (answer, asked, f) ↦ elim (Option-cases answer) [
                | inl done_with ↦
                    pass e t ts
                      (is_done runs (at_limit-IsBelow t below) (
                        ask_thread-Called program g max_thread_events t none
                          (asked ∙ ap (λ (o : Option (EventLabel V)). ok o) done_with)))
                      (next_from-IsThrown suppressed ts e (rw done_with at f))
                | inr (returned, some_label) ↦
                    elim (>>=-eq-throw (next_label g t returned) _ (rw some_label at f)) [
                      | inl refused ↦ first_fails [] t ts tt runs (at_limit-IsBelow t below) (
                          next_label-Fails program g max_thread_events t returned e
                            (ask_thread-Called program g max_thread_events t (some returned)
                              (asked ∙ ap (λ (o : Option (EventLabel V)). ok o) some_label))
                            refused)
                      | inr (label, given, last) ↦ absurd (cc last)
                    ]
              ]
            ]
    ]
  ]

  -- If compute_next_event throws an error, then it comes from the first thread which gives an
  -- event or fails: one that has not ended and has fewer events than the limit, if there is one,
  -- where the program has no such thread or its trace cannot be read, with the error of this, or
  -- the function of the thread throws, with the user_code_error of the thread or the one that the
  -- function threw, or it returns block, with the user_code_error of the thread. The threads
  -- before it have ended, are at the limit or are done.
  pub compute_next_event-IsThrown :
      (thread_ids : List ℕ) (e : Error)
      → compute_next_event program g thread_ids max_thread_events ≡ throw e
      → IsThrown e thread_ids
  unfolding compute_next_event
  compute_next_event-IsThrown thread_ids e ran = next_from-IsThrown false thread_ids e ran
