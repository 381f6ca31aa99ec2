-- ===== src/Algo/Explorer/Runs.antt =====
-- include/dpor/algo/dpor.hpp, verify: the result against the executions that were shown to the observer.
use cpp_dpor.Prelude.{
  ℕ, zero, suc, ◌+◌, ◌≤◌, max, ◌≡◌, ◌⊎◌, inl, inr, refl, sym, ap, ◌∙◌, Bool, true, false, List, [],
  ◌∷◌, Option, some, none, arith, leb, if◌then◌else◌, Bool-cases, List-cases, length, get_elem?,
  elem, All, All-map,
}
use mathlib.Core.Path.{subst}
use cpp_dpor.Errors.{Result, Result-cases, ok, throw, >>=-eq-ok, ok-injective, ◌>>◌}
use cpp_dpor.Exploration.{ExplorationGraph}
use cpp_dpor.Algo.Results.{
  VerifyResult, VerifyResultKind, all_explored, stopped, is_stopped, TerminalExecutionKind, full,
  blocked, failed, depth_limit, thread_event_limit, TerminalExecutionAction, continue, stop,
  increment_terminal_counts,
}
use cpp_dpor.Algo.Config.{
  DporConfig, Comparison, TerminalExecution, notify_terminal_execution, is_some,
  validate_terminal_observer_config,
}
use cpp_dpor.Exploration.Queries.{thread_event_count}
use cpp_dpor.Algo.Next.{compute_max_thread_event_depth, sorted_thread_ids}
use cpp_dpor.Algo.Executor.{
  SequentialExecutor, stop_requested, executor_for, publish_final_progress,
}
use cpp_dpor.Algo.Explorer.{DepthFirstExplorer}
use cpp_dpor.Algo.Explorer.Loop.{step, run_loop, visit_impl, finish, verify}
use cpp_dpor.Algo.Explorer.Evolves.{Evolves, quiet, publishes, applied, report-same}
use cpp_dpor.Algo.Explorer.Rounds.{step-Evolves}

abbrev is_kind : TerminalExecutionKind → TerminalExecutionKind → Bool
is_kind full full = true
is_kind blocked blocked = true
is_kind failed failed = true
is_kind depth_limit depth_limit = true
is_kind thread_event_limit thread_event_limit = true
is_kind _ _ = false

going : (kind : VerifyResultKind) → is_stopped kind ≡ false → kind ≡ all_explored
going all_explored h = refl
going stopped h = cc

increment_terminal_counts-kind :
    (r : VerifyResult) (kind : TerminalExecutionKind) (depth : ℕ)
    → (increment_terminal_counts r kind depth).kind ≡ r.kind
unfolding increment_terminal_counts
increment_terminal_counts-kind r kind depth = ground arith

module _ {ℓ} {V : Type ℓ} where
  -- How many executions of a kind were shown.
  abbrev pub shown_as : TerminalExecutionKind → List (TerminalExecution V) → ℕ
  shown_as kind [] = 0
  shown_as kind (x ∷ shown) = (if is_kind kind x.kind then 1 else 0) + shown_as kind shown

  -- The most events that one thread has in an execution that was shown: no thread has more in any, and
  -- one has as many, unless there are none.
  pub record IsDeepest (thread_ids : List ℕ) (shown : List (TerminalExecution V)) (depth : ℕ)
      : Type ℓ where
    pub bounds : All (λ x. All (λ t. thread_event_count x.graph t ≤ depth) thread_ids) shown
    pub attained :
        (depth ≡ 0)
        ⊎ ((i : ℕ) × (x : TerminalExecution V) × (t : ℕ) × (get_elem? shown i ≡ some x)
            × (elem t thread_ids ≡ true)
            × (thread_event_count x.graph t ≡ depth))

  pub record Accounts (thread_ids : List ℕ) (r : VerifyResult) (shown : List (TerminalExecution V))
      : Type ℓ where
    pub explored : r.executions_explored ≡ length shown
    pub fulls : r.full_executions_explored ≡ shown_as full shown
    pub blockeds : r.blocked_executions_explored ≡ shown_as blocked shown
    pub errors : r.error_executions_explored ≡ shown_as failed shown
    pub depth_limits : r.depth_limit_executions_explored ≡ shown_as depth_limit shown
    pub event_limits : r.thread_event_limit_executions_explored ≡ shown_as thread_event_limit shown
    pub depth : IsDeepest thread_ids shown r.max_thread_event_depth_reached

  -- The observer let the exploration go on but for the last execution at most, where it may have
  -- stopped it.
  pub data Heard (config : DporConfig V)
      : List (TerminalExecution V) → VerifyResultKind → Type ℓ where
    unasked : Heard config [] all_explored
    went_on :
        (x : TerminalExecution V) (shown : List (TerminalExecution V))
        → Heard config shown all_explored
        → notify_terminal_execution config (x ∷ shown) ≡ ok continue
        → Heard config (x ∷ shown) all_explored
    was_stopped :
        (x : TerminalExecution V) (shown : List (TerminalExecution V))
        → Heard config shown all_explored
        → notify_terminal_execution config (x ∷ shown) ≡ ok stop
        → Heard config (x ∷ shown) stopped

  compute_max_thread_event_depth-bounds :
      (g : ExplorationGraph V) (ts : List ℕ) (depth : ℕ)
      → compute_max_thread_event_depth g ts ≤ depth
      → All (λ t. thread_event_count g t ≤ depth) ts
  unfolding compute_max_thread_event_depth
  compute_max_thread_event_depth-bounds g [] depth h = tt
  compute_max_thread_event_depth-bounds g (t ∷ ts) depth h =
      (omega (arith, h), compute_max_thread_event_depth-bounds g ts depth (omega (arith, h)))

  compute_max_thread_event_depth-attained :
      (g : ExplorationGraph V) (ts : List ℕ)
      → (compute_max_thread_event_depth g ts ≡ 0)
        ⊎ ((t : ℕ) × (elem t ts ≡ true)
            × (thread_event_count g t ≡ compute_max_thread_event_depth g ts))
  unfolding compute_max_thread_event_depth
  compute_max_thread_event_depth-attained g [] = inl refl
  compute_max_thread_event_depth-attained g (t ∷ ts) =
      elim (Bool-cases (leb (compute_max_thread_event_depth g ts) (thread_event_count g t))) [
        | inl more ↦ inr (t, ground arith, ground arith)
        | inr less ↦ elim (compute_max_thread_event_depth-attained g ts) [
          | inl nothing ↦ absurd (ground arith)
          | inr (u, among, same) ↦ inr (u, ground (arith, among), ground (arith, same))
        ]
      ]

  deeper :
      (thread_ids : List ℕ) (g : ExplorationGraph V) (kind : TerminalExecutionKind)
      (shown : List (TerminalExecution V)) (depth : ℕ)
      → IsDeepest thread_ids shown depth
      → IsDeepest thread_ids
          (record { graph = g; kind = kind } ∷ shown)
          (max depth (compute_max_thread_event_depth g thread_ids))
  deeper thread_ids g kind shown depth h =
      let now = compute_max_thread_event_depth g thread_ids in
      let new = max depth now in
      record {
        bounds = (
          compute_max_thread_event_depth-bounds g thread_ids new (omega arith),
          All-map _ _ shown (λ x. All-map _ _ thread_ids (λ t k. omega (arith, k))) h.bounds,
        );
        attained = elim (Bool-cases (leb now depth)) [
          | inl old ↦
              let same : depth ≡ new = ground arith in
              elim h.attained [
                | inl nothing ↦ inl (sym same ∙ nothing)
                | inr (i, x, t, found, among, has) ↦ inr (suc i, x, t, found, among, has ∙ same)
              ]
          | inr larger ↦
              let same : now ≡ new = ground arith in
              elim (compute_max_thread_event_depth-attained g thread_ids) [
                | inl nothing ↦ inl (sym same ∙ nothing)
                | inr (t, among, has) ↦
                    inr (0, record { graph = g; kind = kind }, t, refl, among, has ∙ same)
              ]
        ];
      }

  counted :
      (thread_ids : List ℕ) (action : TerminalExecutionAction) (g : ExplorationGraph V)
      (kind : TerminalExecutionKind) (r : VerifyResult) (shown : List (TerminalExecution V))
      → Accounts thread_ids r shown
      → Accounts thread_ids
          (applied action
            (increment_terminal_counts r kind (compute_max_thread_event_depth g thread_ids)))
          (record { graph = g; kind = kind } ∷ shown)
  unfolding increment_terminal_counts
  counted thread_ids action g kind r shown a = record {
    explored = ground (arith, a.explored);
    fulls = ground (arith, a.fulls);
    blockeds = ground (arith, a.blockeds);
    errors = ground (arith, a.errors);
    depth_limits = ground (arith, a.depth_limits);
    event_limits = ground (arith, a.event_limits);
    depth =
        subst (IsDeepest thread_ids (record { graph = g; kind = kind } ∷ shown)) (ground arith)
          (deeper thread_ids g kind shown r.max_thread_event_depth_reached a.depth);
  }

  heard :
      (config : DporConfig V) (shown : List (TerminalExecution V)) (x : TerminalExecution V)
      (action : TerminalExecutionAction) (r counted : VerifyResult)
      → is_stopped r.kind ≡ false
      → counted.kind ≡ r.kind
      → notify_terminal_execution config (x ∷ shown) ≡ ok action
      → Heard config shown r.kind
      → Heard config (x ∷ shown) (applied action counted).kind
  heard config shown x continue r counted runs_on same answer h =
      subst (Heard config (x ∷ shown)) (sym (same ∙ going r.kind runs_on))
        (went_on x shown (subst (Heard config shown) (going r.kind runs_on) h) answer)
  heard config shown x stop r counted runs_on same answer h =
      was_stopped x shown (subst (Heard config shown) (going r.kind runs_on) h) answer

  -- What is true of the executor between two rounds.
  pub record IsRecorded (config : DporConfig V) (thread_ids : List ℕ) (r : VerifyResult)
      (shown : List (TerminalExecution V)) : Type ℓ where
    pub accounts : Accounts thread_ids r shown
    pub answers : Heard config shown r.kind

  evolved :
      (config : DporConfig V) (thread_ids : List ℕ) (ex ex' : SequentialExecutor V)
      → stop_requested ex ≡ false
      → Evolves config thread_ids ex ex'
      → IsRecorded config thread_ids ex.result ex.shown
      → IsRecorded config thread_ids ex'.result ex'.shown
  evolved config thread_ids ex ex' runs_on (quiet r s) h =
      subst (λ (x : VerifyResult). IsRecorded config thread_ids x ex'.shown) (sym r)
        (subst (IsRecorded config thread_ids ex.result) (sym s) h)
  evolved config thread_ids ex ex' runs_on (publishes g kind action answer s r) h =
      subst (λ (x : VerifyResult). IsRecorded config thread_ids x ex'.shown) (sym r)
        (subst (IsRecorded config thread_ids _) (sym s) (record {
          accounts = counted thread_ids action g kind ex.result ex.shown h.accounts;
          answers =
              heard config ex.shown (record { graph = g; kind = kind }) action ex.result _ runs_on
                (increment_terminal_counts-kind ex.result kind
                  (compute_max_thread_event_depth g thread_ids))
                answer h.answers;
        }))

module _ {ℓ} {V : Type ℓ} (values : Comparison V) (config : DporConfig V) (clock : ℕ → ℕ) where
  module _ (thread_ids : List ℕ) where
    ended :
        (ex ex' : SequentialExecutor V)
        → IsRecorded config thread_ids ex.result ex.shown
        → some (ok ex) ≡ some (ok ex')
        → IsRecorded config thread_ids ex'.result ex'.shown
    ended ex ex' h same =
        let is_same : ex ≡ ex' = cc in
        subst (λ (x : SequentialExecutor V). IsRecorded config thread_ids x.result x.shown) is_same
          h

    step-IsRecorded :
        (e e' : DepthFirstExplorer V)
        → step values config clock thread_ids e ≡ ok e'
        → IsRecorded config thread_ids e.executor.result e.executor.shown
        → IsRecorded config thread_ids e'.executor.result e'.executor.shown
    step-IsRecorded e e' ran h = elim (step-Evolves values config clock thread_ids e e' ran) [
      | inl (stops, same) ↦
          subst (λ (x : SequentialExecutor V). IsRecorded config thread_ids x.result x.shown)
            (sym same) h
      | inr (runs_on, evolves) ↦ evolved config thread_ids e.executor e'.executor runs_on evolves h
    ]

    run_loop-IsRecorded :
        (fuel : ℕ) (e : DepthFirstExplorer V) (ex : SequentialExecutor V)
        → IsRecorded config thread_ids e.executor.result e.executor.shown
        → run_loop values config clock thread_ids fuel e ≡ some (ok ex)
        → IsRecorded config thread_ids ex.result ex.shown
    unfolding run_loop
    run_loop-IsRecorded zero e ex h ran = elim (List-cases e.contexts) [
      | inl over ↦ ended e.executor ex h (rw (over, run_loop) at ran)
      | inr (c, cs, left) ↦ cc (rw (left, run_loop) at ran)
    ]
    run_loop-IsRecorded (suc fuel) e ex h ran = elim (List-cases e.contexts) [
      | inl over ↦ ended e.executor ex h (rw (over, run_loop) at ran)
      | inr (c, cs, left) ↦ elim (Result-cases (step values config clock thread_ids e)) [
        | inr (thrown, ended_so) ↦ cc (rw (left, ended_so, run_loop) at ran)
        | inl (e', stepped) ↦
            run_loop-IsRecorded fuel e' ex (step-IsRecorded e e' stepped h)
              (rw (left, stepped, run_loop) at ran)
      ]
    ]

    publish_final_progress-same :
        (ex ex' : SequentialExecutor V)
        → publish_final_progress config clock ex ≡ ok ex'
        → (ex'.result ≡ ex.result) × (ex'.shown ≡ ex.shown)
    unfolding publish_final_progress
    publish_final_progress-same ex ex' ran = elim (Bool-cases (is_some config.on_progress)) [
      | inl listens ↦ report-same config thread_ids _ _ _ ex' (rw listens at ran)
      | inr none_listens ↦
          let same = ok-injective (rw none_listens at ran) in
          (
            ap (λ (x : SequentialExecutor V). x.result) (sym same),
            ap (λ (x : SequentialExecutor V). x.shown) (sym same),
          )
    ]

    finish-IsRecorded :
        (explored : Option (Result (SequentialExecutor V))) (ex : SequentialExecutor V)
        → ((ex' : SequentialExecutor V)
            → explored ≡ some (ok ex')
            → IsRecorded config thread_ids ex'.result ex'.shown)
        → finish values config clock thread_ids explored ≡ some (ok ex)
        → IsRecorded config thread_ids ex.result ex.shown
    unfolding finish
    finish-IsRecorded none ex h ran = cc
    finish-IsRecorded (some (throw thrown)) ex h ran = cc
    finish-IsRecorded (some (ok ex')) ex h ran =
        let (r, s) = publish_final_progress-same ex' ex cc in
        subst (λ (x : VerifyResult). IsRecorded config thread_ids x ex.shown) (sym r)
          (subst (IsRecorded config thread_ids ex'.result) (sym s) (h ex' refl))

  -- When verify returns, what it returns is recorded for the threads of the program.
  verify-IsRecorded :
      (fuel : ℕ) (ex : SequentialExecutor V)
      → verify values config clock fuel ≡ some (ok ex)
      → (thread_ids : List ℕ) × (sorted_thread_ids config.program ≡ ok thread_ids)
        × IsRecorded config thread_ids ex.result ex.shown
  unfolding verify visit_impl executor_for
  verify-IsRecorded fuel ex ran =
      elim (Result-cases
        (validate_terminal_observer_config config >> sorted_thread_ids config.program)) [
          | inr (thrown, ended_so) ↦ cc (rw (ended_so, verify) at ran)
          | inl (thread_ids, checked) ↦
              let (u, valid, sorted) =
                >>=-eq-ok (validate_terminal_observer_config config) _ checked in
              (
                thread_ids,
                sorted,
                finish-IsRecorded thread_ids _ ex
                    (λ ex' explored.
                      run_loop-IsRecorded thread_ids fuel _ ex'
                        (record {
                          accounts = record {
                            explored = refl;
                            fulls = refl;
                            blockeds = refl;
                            errors = refl;
                            depth_limits = refl;
                            event_limits = refl;
                            depth = record { bounds = tt; attained = inl refl };
                          };
                          answers = unasked;
                        })
                        explored)
                    (rw (checked, verify) at ran),
              )
        ]

  -- When verify returns, its result counts the executions that were shown to the observer, those
  -- of each kind and all of them, and names the most events that a thread of the program has in
  -- one: no thread has more in any, and some thread has as many in one, or the number is 0.
  pub verify-Accounts :
      (fuel : ℕ) (ex : SequentialExecutor V)
      → verify values config clock fuel ≡ some (ok ex)
      → (thread_ids : List ℕ) × (sorted_thread_ids config.program ≡ ok thread_ids)
        × Accounts thread_ids ex.result ex.shown
  verify-Accounts fuel ex ran =
      let (thread_ids, sorted, h) = verify-IsRecorded fuel ex ran in
      (thread_ids, sorted, h.accounts)

  -- When verify returns, the observer answered every execution but the last with continue, and the
  -- result is of the kind stopped exactly when it answered the last one with stop.
  pub verify-Heard :
      (fuel : ℕ) (ex : SequentialExecutor V)
      → verify values config clock fuel ≡ some (ok ex)
      → Heard config ex.shown ex.result.kind
  verify-Heard fuel ex ran =
      let (thread_ids, sorted, h) = verify-IsRecorded fuel ex ran in h.answers
