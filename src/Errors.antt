-- ===== src/Errors.antt =====
-- include/dpor/errors.hpp: the exception categories as values, and the monad of code that may throw.
-- The texts of the messages are left out.
use cpp_dpor.Prelude.{ℕ, ◌≡◌, ◌⊎◌, inl, inr, refl, Bool, true, false, Option}

-- Which user-provided callback an error came from.
pub data UserCallbackKind : Type 0 where
  thread_function receive_matcher terminal_observer progress_observer : UserCallbackKind

-- The three disjoint categories of `dpor::error`. The last carries the thread, when it is known.
pub data Error : Type 0 where
  internal_error : Error
  precondition_error : Error
  user_code_error : UserCallbackKind → Option ℕ → Error

pub data Result {ℓ} (A : Type ℓ) : Type ℓ where
  ok : A → Result A
  throw : Error → Result A

-- What runs when a call has returned. A call that throws ends the caller too.
module _ {ℓ κ} {A : Type ℓ} {B : Type κ} where
  infixl 5 ◌>>=◌
  abbrev pub ◌>>=◌ : Result A → (A → Result B) → Result B
  throw e >>= next = throw e
  ok returned >>= next = next returned

  -- If the whole returns, so did its two parts.
  pub >>=-eq-ok :
      (call : Result A) (next : A → Result B) {b : B}
      → call >>= next ≡ ok b
      → (returned : A) × (call ≡ ok returned) × (next returned ≡ ok b)
  >>=-eq-ok (throw e) next ran = cc
  >>=-eq-ok (ok returned) next ran = (returned, refl, ran)

  -- If the whole throws, then one of its two parts did.
  pub >>=-eq-throw :
      (call : Result A) (next : A → Result B) {e : Error}
      → call >>= next ≡ throw e
      → (call ≡ throw e) ⊎ ((returned : A) × (call ≡ ok returned) × (next returned ≡ throw e))
  >>=-eq-throw (throw e) next ran = inl (cc ran)
  >>=-eq-throw (ok returned) next ran = inr (returned, refl, ran)

module _ {ℓ} {A : Type ℓ} where
  infixl 5 ◌>>◌
  abbrev pub ◌>>◌ : Result (Unit {0}) → Result A → Result A
  check >> next = check >>= λ _. next

  pub ok-injective : {a b : A} → ok a ≡ ok b → a ≡ b
  ok-injective same = cc

  pub throw-injective : {d e : Error} → ◌≡◌ {A = Result A} (throw d) (throw e) → d ≡ e
  throw-injective same = cc

-- `if (bad) throw e;`
abbrev pub throw_if : Bool → Error → Result (Unit {0})
throw_if true e = throw e
throw_if false e = ok tt

pub Result-cases {ℓ} :
    {A : Type ℓ} (r : Result A) → ((a : A) × (r ≡ ok a)) ⊎ ((e : Error) × (r ≡ throw e))
Result-cases (ok a) = inl (a, refl)
Result-cases (throw e) = inr (e, refl)
