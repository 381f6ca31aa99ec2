-- ===== src/Algo/Explorer/Evolves.antt =====
-- include/dpor/algo/dpor.hpp, DepthFirstExplorer: what one round of the loop does to the executor.
use cpp_dpor.Prelude.{ℕ, ◌≡◌, inl, inr, refl, sym, ap, ◌∙◌, List, ◌∷◌, ltb, Bool-cases}
use mathlib.Core.Path.{subst}
use cpp_dpor.Errors.{ok, >>=-eq-ok, ok-injective}
use cpp_dpor.Exploration.{ExplorationGraph}
use cpp_dpor.Algo.Results.{
  VerifyResult, TerminalExecutionKind, TerminalExecutionAction, ProgressState, running, continue,
  stop, stopped, increment_terminal_counts,
}
use cpp_dpor.Algo.Config.{
  DporConfig, TerminalExecution, notify_terminal_execution, notify_progress, is_some,
}
use cpp_dpor.Algo.Next.{compute_max_thread_event_depth}
use cpp_dpor.Algo.Executor.{
  SequentialExecutor, maybe_report_progress, report, publish_terminal_execution,
}

abbrev pub applied : TerminalExecutionAction → VerifyResult → VerifyResult
applied continue counted = counted
applied stop counted = record counted { kind = stopped }

applied-elim :
    (action : TerminalExecutionAction) (counted : VerifyResult)
    → elim action [ continue ↦ counted | stop ↦ record counted { kind = stopped } ]
      ≡ applied action counted
applied-elim continue counted = refl
applied-elim stop counted = refl

module _ {ℓ} {V : Type ℓ} (config : DporConfig V) (thread_ids : List ℕ) where
  -- The executor shows nothing, or one more execution, which it counts and whose answer it heeds.
  pub data Evolves (ex ex' : SequentialExecutor V) : Type ℓ where
    quiet : ex'.result ≡ ex.result → ex'.shown ≡ ex.shown → Evolves ex ex'
    publishes :
        (g : ExplorationGraph V) (kind : TerminalExecutionKind) (action : TerminalExecutionAction)
        → notify_terminal_execution config (record { graph = g; kind = kind } ∷ ex.shown)
          ≡ ok action
        → ex'.shown ≡ record { graph = g; kind = kind } ∷ ex.shown
        → ex'.result
          ≡ applied action (
              increment_terminal_counts ex.result kind
                (compute_max_thread_event_depth g thread_ids))
        → Evolves ex ex'

  abbrev pub stays : (ex : SequentialExecutor V) → Evolves ex ex
  stays ex = quiet refl refl

  same_of :
      {ex ex' : SequentialExecutor V} → ex ≡ ex' → (ex'.result ≡ ex.result) × (ex'.shown ≡ ex.shown)
  same_of same = (
    ap (λ (x : SequentialExecutor V). x.result) (sym same),
    ap (λ (x : SequentialExecutor V). x.shown) (sym same),
  )

  pub report-same :
      (state : ProgressState) (now : ℕ) (ex ex' : SequentialExecutor V)
      → report config state now ex ≡ ok ex'
      → (ex'.result ≡ ex.result) × (ex'.shown ≡ ex.shown)
  unfolding report
  report-same state now ex ex' ran =
      let (u, e, f) = >>=-eq-ok (notify_progress config _) _ ran in
      (
        ap (λ (x : SequentialExecutor V). x.result) (sym (ok-injective f)),
        ap (λ (x : SequentialExecutor V). x.shown) (sym (ok-injective f)),
      )

  pub maybe_report_progress-same :
      (clock : ℕ → ℕ) (ex ex' : SequentialExecutor V)
      → maybe_report_progress config clock ex ≡ ok ex'
      → (ex'.result ≡ ex.result) × (ex'.shown ≡ ex.shown)
  unfolding maybe_report_progress
  maybe_report_progress-same clock ex ex' ran = elim (Bool-cases (is_some config.on_progress)) [
    | inr none_listens ↦ same_of (ok-injective (rw none_listens at ran))
    | inl listens ↦ elim (Bool-cases (ltb 0 config.progress_report_interval)) [
      | inr always ↦ report-same running _ _ ex' (rw (listens, always) at ran)
      | inl throttled ↦ elim (Bool-cases (ltb (clock ex.readings) ex.next_progress_report_at)) [
        | inl early ↦
            let same = ok-injective (rw (listens, throttled, early) at ran) in
            (
              ap (λ (x : SequentialExecutor V). x.result) (sym same),
              ap (λ (x : SequentialExecutor V). x.shown) (sym same),
            )
        | inr due ↦ report-same running _ _ ex' (rw (listens, throttled, due) at ran)
      ]
    ]
  ]

  -- A report before the execution that is shown.
  pub after_report :
      (ex ex' ex'' : SequentialExecutor V)
      → (ex'.result ≡ ex.result) × (ex'.shown ≡ ex.shown)
      → Evolves ex' ex''
      → Evolves ex ex''
  after_report ex ex' ex'' (result, shown) (quiet r s) = quiet (r ∙ result) (s ∙ shown)
  after_report ex ex' ex'' (result, shown) (publishes g kind action heard s r) =
      publishes g kind action
        (subst
          (λ (x : List (TerminalExecution V)).
            notify_terminal_execution config (record { graph = g; kind = kind } ∷ x) ≡ ok action)
          shown heard)
        (s ∙ ap (◌∷◌ (record { graph = g; kind = kind })) shown)
        (r
          ∙ ap
              (λ (x : VerifyResult).
                applied action
                  (increment_terminal_counts x kind (compute_max_thread_event_depth g thread_ids)))
              result)

  pub publish-Evolves :
      (ex ex' : SequentialExecutor V) (g : ExplorationGraph V) (kind : TerminalExecutionKind)
      → publish_terminal_execution config ex g kind (compute_max_thread_event_depth g thread_ids)
        ≡ ok ex'
      → Evolves ex ex'
  unfolding publish_terminal_execution
  publish-Evolves ex ex' g kind ran =
      let (action, e, f) =
        >>=-eq-ok (notify_terminal_execution config (record { graph = g; kind = kind } ∷ ex.shown))
          _ ran in
      publishes g kind action e (ap (λ (x : SequentialExecutor V). x.shown) (sym (ok-injective f)))
        (ap (λ (x : SequentialExecutor V). x.result) (sym (ok-injective f)) ∙ applied-elim action _)
