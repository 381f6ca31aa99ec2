-- ===== src/Algo/Explorer/Finishes.antt =====
-- include/dpor/algo/dpor.hpp, DepthFirstExplorer::run_loop: explorers from which the loop comes to an end.
use cpp_dpor.Prelude.{
  ℕ, zero, suc, ◌≤◌, ◌≡◌, inl, inr, refl, ◌∙◌, true, List, [], ◌∷◌, Option, some, arith, Bool-cases,
  List-cases,
}
use mathlib.Core.Path.{subst}
use cpp_dpor.Errors.{Result, ok-injective, ok, throw, Error, >>=-eq-ok, Result-cases}
use cpp_dpor.Exploration.{ExplorationGraph}
use cpp_dpor.Exploration.History.{rollback}
use cpp_dpor.Algo.Config.{DporConfig, Comparison}
use cpp_dpor.Algo.Executor.{SequentialExecutor, stop_requested}
use cpp_dpor.Algo.Explorer.{
  enter, exit_linear_child, resume_nd, resume_receive, resume_send_revisits, ExplorationFrame,
  ExplorationContext, ExplorationFrameKind, context_of, DepthFirstExplorer, pop_top_frame,
  rollback_and_pop_top_frame, unwind_one_step,
}
use cpp_dpor.Algo.Explorer.Loop.{step, run_loop, handle_frame}

abbrev pub explorer {ℓ} :
    {V : Type ℓ}
    → SequentialExecutor V
    → ExplorationGraph V
    → List (ExplorationFrame V)
    → List (ExplorationContext V)
    → DepthFirstExplorer V
explorer ex g frames contexts = record { executor = ex; contexts = context_of g frames ∷ contexts }

module _ {ℓ} {V : Type ℓ} (values : Comparison V) (config : DporConfig V) (clock : ℕ → ℕ)
    (thread_ids : List ℕ) where
  pub data Finishes : DepthFirstExplorer V → Type ℓ where
    is_over : {e : DepthFirstExplorer V} → e.contexts ≡ [] → Finishes e
    fails :
        {e : DepthFirstExplorer V} {thrown : Error}
        → step values config clock thread_ids e ≡ throw thrown
        → Finishes e
    goes_on :
        {e e' : DepthFirstExplorer V}
        → step values config clock thread_ids e ≡ ok e'
        → Finishes e'
        → Finishes e

  abbrev runs : ℕ → DepthFirstExplorer V → Option (Result (SequentialExecutor V))
  runs = run_loop values config clock thread_ids

  run_loop-over :
      (fuel : ℕ) (e : DepthFirstExplorer V) → e.contexts ≡ [] → runs fuel e ≡ some (ok e.executor)
  unfolding run_loop
  run_loop-over zero e over = rw over refl
  run_loop-over (suc fuel) e over = rw over refl

  run_loop-step :
      (n : ℕ) (e : DepthFirstExplorer V) (c : ExplorationContext V)
      (cs : List (ExplorationContext V))
      → e.contexts ≡ c ∷ cs
      → runs (suc n) e ≡ elim (step values config clock thread_ids e) [
        | throw thrown ↦ some (throw thrown)
        | ok e' ↦ runs n e'
      ]
  unfolding run_loop
  run_loop-step n e c cs left = rw left refl

  run_loop-throw :
      (e : DepthFirstExplorer V) (c : ExplorationContext V) (cs : List (ExplorationContext V))
      (thrown : Error)
      → e.contexts ≡ c ∷ cs
      → step values config clock thread_ids e ≡ throw thrown
      → (n : ℕ) → 1 ≤ n
      → runs n e ≡ some (throw thrown)
  run_loop-throw e c cs thrown left ran zero h = absurd (omega arith)
  run_loop-throw e c cs thrown left ran (suc n) h = run_loop-step n e c cs left ∙ rw ran refl

  run_loop-goes_on :
      (e e' : DepthFirstExplorer V) (c : ExplorationContext V) (cs : List (ExplorationContext V))
      (fuel : ℕ) (r : Result (SequentialExecutor V))
      → e.contexts ≡ c ∷ cs
      → step values config clock thread_ids e ≡ ok e'
      → ((n : ℕ) → fuel ≤ n → runs n e' ≡ some r)
      → (n : ℕ) → suc fuel ≤ n
      → runs n e ≡ some r
  run_loop-goes_on e e' c cs fuel r left ran enough zero h = absurd (omega arith)
  run_loop-goes_on e e' c cs fuel r left ran enough (suc n) h =
      run_loop-step n e c cs left ∙ (rw ran refl ∙ enough n (omega arith))

  -- The fuel that an explorer needs, and what the loop gives with as much fuel or more.
  pub run_loop-Finishes :
      (e : DepthFirstExplorer V)
      → Finishes e
      → (fuel : ℕ) × (r : Result (SequentialExecutor V)) × ((n : ℕ) → fuel ≤ n → runs n e ≡ some r)
  run_loop-Finishes e (is_over over) = (0, ok e.executor, λ n h. run_loop-over n e over)
  run_loop-Finishes e (fails {thrown = thrown} ran) = elim (List-cases e.contexts) [
    | inl over ↦ (0, ok e.executor, λ n h. run_loop-over n e over)
    | inr (c, cs, left) ↦ (1, throw thrown, run_loop-throw e c cs thrown left ran)
  ]
  run_loop-Finishes e (goes_on {e' = e'} ran f) = elim (List-cases e.contexts) [
    | inl over ↦ (0, ok e.executor, λ n h. run_loop-over n e over)
    | inr (c, cs, left) ↦
        let (fuel, r, enough) = run_loop-Finishes e' f in
        (suc fuel, r, run_loop-goes_on e e' c cs fuel r left ran enough)
  ]

  -- An explorer finishes if its next state does.
  from_step :
      (e : DepthFirstExplorer V)
      → ((e' : DepthFirstExplorer V) → step values config clock thread_ids e ≡ ok e' → Finishes e')
      → Finishes e
  from_step e next = elim (Result-cases (step values config clock thread_ids e)) [
    | inl (e', ran) ↦ goes_on ran (next e' ran)
    | inr (thrown, ran) ↦ fails ran
  ]

  -- What is left once a frame is popped finishes, whatever graph and executor it is left with.
  abbrev pub IsDone : List (ExplorationFrame V) → List (ExplorationContext V) → Type ℓ
  IsDone frames contexts =
      (ex : SequentialExecutor V) (g : ExplorationGraph V)
      → Finishes (pop_top_frame ex g frames contexts)

  pub rollback_and_pop-Finishes :
      (ex : SequentialExecutor V) (g : ExplorationGraph V) (frame : ExplorationFrame V)
      (frames : List (ExplorationFrame V)) (contexts : List (ExplorationContext V))
      (e' : DepthFirstExplorer V)
      → IsDone frames contexts
      → rollback_and_pop_top_frame ex g frame frames contexts ≡ ok e'
      → Finishes e'
  unfolding rollback_and_pop_top_frame
  rollback_and_pop-Finishes ex g frame frames contexts e' done ran =
      let (g', restored, f) = >>=-eq-ok (rollback g frame.checkpoint) _ ran in
      subst Finishes (ok-injective f) (done ex g')

  unwound_by :
      (kind : ExplorationFrameKind) (ex : SequentialExecutor V) (g : ExplorationGraph V)
      (frame : ExplorationFrame V) (frames : List (ExplorationFrame V))
      (contexts : List (ExplorationContext V)) (e' : DepthFirstExplorer V)
      → IsDone frames contexts
      → elim kind [
        | enter ↦ ok (pop_top_frame ex g frames contexts)
        | _ ↦ rollback_and_pop_top_frame ex g frame frames contexts
      ]
        ≡ ok e'
      → Finishes e'
  unwound_by enter ex g frame frames contexts e' done ran =
      subst Finishes (ok-injective ran) (done ex g)
  unwound_by exit_linear_child ex g frame frames contexts e' done ran =
      rollback_and_pop-Finishes ex g frame frames contexts e' done ran
  unwound_by resume_nd ex g frame frames contexts e' done ran =
      rollback_and_pop-Finishes ex g frame frames contexts e' done ran
  unwound_by resume_receive ex g frame frames contexts e' done ran =
      rollback_and_pop-Finishes ex g frame frames contexts e' done ran
  unwound_by resume_send_revisits ex g frame frames contexts e' done ran =
      rollback_and_pop-Finishes ex g frame frames contexts e' done ran

  pub frame-Finishes :
      (ex : SequentialExecutor V) (g : ExplorationGraph V) (frame : ExplorationFrame V)
      (frames : List (ExplorationFrame V)) (contexts : List (ExplorationContext V))
      → IsDone frames contexts
      → ((e' : DepthFirstExplorer V)
          → handle_frame values config clock thread_ids ex g frame frames contexts ≡ ok e'
          → Finishes e')
      → Finishes (explorer ex g (frame ∷ frames) contexts)
  unfolding step unwind_one_step
  frame-Finishes ex g frame frames contexts done handled = from_step _ λ e' ran.
      elim (Bool-cases (stop_requested ex)) [
        | inl stops ↦ unwound_by frame.kind ex g frame frames contexts e' done (rw stops at ran)
        | inr runs_on ↦ handled e' (rw runs_on at ran)
      ]

  pub stopped-Finishes :
      (ex : SequentialExecutor V) (g : ExplorationGraph V) (frame : ExplorationFrame V)
      (frames : List (ExplorationFrame V)) (contexts : List (ExplorationContext V))
      → IsDone frames contexts
      → stop_requested ex ≡ true
      → Finishes (explorer ex g (frame ∷ frames) contexts)
  unfolding step unwind_one_step
  stopped-Finishes ex g frame frames contexts done stops =
      from_step _
        λ e' ran. unwound_by frame.kind ex g frame frames contexts e' done (rw stops at ran)
