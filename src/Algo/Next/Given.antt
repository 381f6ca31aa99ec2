-- ===== src/Algo/Next/Given.antt =====
-- include/dpor/algo/dpor.hpp, compute_next_event: when a thread is asked, and what becomes of its answer.
use cpp_dpor.Prelude.{
  ℕ, ◌≡◌, ◌↔◌, inl, inr, refl, Bool, true, false, not, ◌&&◌, List, Option, some, arith, ltb, leb,
  if◌then◌else◌,
}
use Prim.Native.String.{String}
use mathlib.Core.Path.{subst}
use cpp_dpor.Errors.{
  Error, ok, throw, >>=-eq-ok, ok-injective, throw-injective, >>=-eq-throw, thread_function,
  user_code_error, UserCallbackKind,
}
use cpp_dpor.Event.{
  EventLabel, ReceiveLabel, SendLabel, NondeterministicChoiceLabel, receive, send, nondet, block,
  error, ObservedValue, ReceiveMode, blocking, nonblocking,
}
use cpp_dpor.Program.{ThreadMap, at}
use cpp_dpor.Exploration.{ExplorationGraph}
use cpp_dpor.Exploration.Queries.{thread_event_count, thread_trace}
use cpp_dpor.Algo.Config.{ThreadFunction, Outcome, returns, rethrows, throws, invoke_user_code}
use cpp_dpor.Algo.Next.Sends.{Served, has_compatible_unread_send-Served}
use cpp_dpor.Algo.Next.{next_label, ask_thread, at_limit, has_compatible_unread_send}

module _ {ℓ} {V : Type ℓ} (program : ThreadMap (ThreadFunction V)) (g : ExplorationGraph V)
    (max_thread_events : ℕ) where
  -- The thread has as many events as it may have; 0 is no limit.
  abbrev pub is_full : ℕ → Bool
  is_full t = ltb 0 max_thread_events && leb max_thread_events (thread_event_count g t)

  pub at_limit-is_full : (t : ℕ) → at_limit g max_thread_events t ≡ is_full t
  unfolding at_limit
  at_limit-is_full t = ground arith

  -- A call of the function of a thread on its trace and the number of its events.
  pub record Called (t : ℕ) (outcome : Outcome (Option (EventLabel V))) : Type ℓ where
    pub thread_fn : ThreadFunction V
    pub trace : List (ObservedValue V)
    pub found : at program t ≡ ok thread_fn
    pub traced : thread_trace g t ≡ ok trace
    pub called : thread_fn trace (thread_event_count g t) ≡ outcome

  returned :
      (t : ℕ) (outcome : Outcome (Option (EventLabel V))) (answer : Option (EventLabel V))
      → invoke_user_code thread_function (some t) outcome ≡ ok answer
      → outcome ≡ returns answer
  unfolding invoke_user_code
  returned t (returns a) answer h = cc
  returned t (rethrows kind tid) answer h = cc
  returned t throws answer h = cc

  pub ask_thread-Called :
      (t : ℕ) (answer : Option (EventLabel V))
      → ask_thread program g t (thread_event_count g t) ≡ ok answer
      → Called t (returns answer)
  unfolding ask_thread
  ask_thread-Called t answer ran =
      let (fn, e, f) = >>=-eq-ok (at program t) _ ran in
      let (trace, e1, f1) = >>=-eq-ok (thread_trace g t) _ f in
      record {
        thread_fn = fn;
        trace = trace;
        found = e;
        traced = e1;
        called = returned t (fn trace (thread_event_count g t)) answer f1;
      }

  -- What becomes of a label: a blocking receive that nothing serves becomes block.
  pub data Becomes (t : ℕ) : EventLabel V → EventLabel V → Type ℓ where
    sends : (s : SendLabel V) → Becomes t (send s) (send s)
    chooses : (c : NondeterministicChoiceLabel V) → Becomes t (nondet c) (nondet c)
    fails : (m : String) → Becomes t (error m) (error m)
    polls : (r : ReceiveLabel V) → r.mode ≡ nonblocking → Becomes t (receive r) (receive r)
    served :
        (r : ReceiveLabel V) → r.mode ≡ blocking → Served g t r → Becomes t (receive r) (receive r)
    starved :
        (r : ReceiveLabel V) → r.mode ≡ blocking → ¬ (Served g t r) → Becomes t (receive r) block

  received :
      (t : ℕ) (r : ReceiveLabel V) (mode : ReceiveMode) (is_served : Bool)
      → r.mode ≡ mode
      → (is_served ≡ true) ↔ Served g t r
      → Becomes t (receive r) (
          if elim mode [ blocking ↦ true | nonblocking ↦ false ] && not is_served
          then block
          else receive r)
  received t r nonblocking is_served e h = polls r e
  received t r blocking true e h = served r e (h.0 refl)
  received t r blocking false e h = starved r e λ s. cc (h.1 s)

  pub next_label-Becomes :
      (t : ℕ) (answer label : EventLabel V)
      → next_label g t answer ≡ ok label
      → Becomes t answer label
  unfolding next_label
  next_label-Becomes t block label h = cc
  next_label-Becomes t (send s) label h = subst (Becomes t (send s)) (ok-injective h) (sends s)
  next_label-Becomes t (nondet c) label h =
      subst (Becomes t (nondet c)) (ok-injective h) (chooses c)
  next_label-Becomes t (error m) label h = subst (Becomes t (error m)) (ok-injective h) (fails m)
  next_label-Becomes t (receive r) label h = subst (Becomes t (receive r)) (ok-injective h) (
      received t r r.mode (has_compatible_unread_send g t r) refl
        (has_compatible_unread_send-Served g t r))

  -- How the call of a thread that is asked throws: the program has no such thread, its trace cannot be
  -- read, its function throws, or it returns block.
  pub data Fails (t : ℕ) : Error → Type ℓ where
    no_thread : (e : Error) → at program t ≡ throw e → Fails t e
    no_trace : (e : Error) → thread_trace g t ≡ throw e → Fails t e
    thrown : Called t throws → Fails t (user_code_error thread_function (some t))
    rethrown :
        (kind : UserCallbackKind) (tid : Option ℕ)
        → Called t (rethrows kind tid)
        → Fails t (user_code_error kind tid)
    said_block :
        Called t (returns (some block)) → Fails t (user_code_error thread_function (some t))

  outcome-Fails :
      (t : ℕ) (outcome : Outcome (Option (EventLabel V))) (e : Error)
      → Called t outcome
      → invoke_user_code thread_function (some t) outcome ≡ throw e
      → Fails t e
  unfolding invoke_user_code
  outcome-Fails t (returns a) e c h = cc
  outcome-Fails t (rethrows kind tid) e c h =
      subst (Fails t) (throw-injective h) (rethrown kind tid c)
  outcome-Fails t throws e c h = subst (Fails t) (throw-injective h) (thrown c)

  pub ask_thread-Fails :
      (t : ℕ) (e : Error) → ask_thread program g t (thread_event_count g t) ≡ throw e → Fails t e
  unfolding ask_thread
  ask_thread-Fails t e ran = elim (>>=-eq-throw (at program t) _ ran) [
    | inl missing ↦ no_thread e missing
    | inr (fn, found, f) ↦ elim (>>=-eq-throw (thread_trace g t) _ f) [
      | inl unread ↦ no_trace e unread
      | inr (trace, traced, h) ↦
          outcome-Fails t (fn trace (thread_event_count g t)) e
            (record {
              thread_fn = fn;
              trace = trace;
              found = found;
              traced = traced;
              called = refl;
            })
            h
    ]
  ]

  pub next_label-Fails :
      (t : ℕ) (answer : EventLabel V) (e : Error)
      → Called t (returns (some answer))
      → next_label g t answer ≡ throw e
      → Fails t e
  unfolding next_label
  next_label-Fails t block e c h = subst (Fails t) (throw-injective h) (said_block c)
  next_label-Fails t (send s) e c h = cc
  next_label-Fails t (nondet d) e c h = cc
  next_label-Fails t (error m) e c h = cc
  next_label-Fails t (receive r) e c h = cc
