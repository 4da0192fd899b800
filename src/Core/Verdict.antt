-- ===== src/Core/Verdict.antt =====
-- internal/core/search.go: CompletionShortfall, IsRunStable and InstabilityMessage. Numbers of Go's
-- float64 are elements of `F` under the operations of `fl`.
pub mod Agreement
use load_observatory.Prelude.{
  ℤ, pos, ltb_ℤ, eqb_ℤ, ◌+ℤ◌, if◌then◌else◌, Bool, true, false, ◌&&◌, ◌||◌, not,
}
use load_observatory.Prelude.Floats.{Floats}
use load_observatory.Core.Types.{
  Run, Instability, no_completed_requests, unmet, too_few_finished, error_rate, latency, ttft,
  output_rate,
}

module _ {F : Type 0} ⦃fl : Floats F⦄ where
  abbrev pub int : ℤ → F
  int n = fl.of_int n

  -- The rate, the limit that it is held to, and whether it falls short.
  unfoldable pub completion_shortfall : Run F → F × F × Bool
  completion_shortfall run =
      let chosen = run.config.min_completion_percent in
      let limit = if fl.eq chosen (int (pos 0)) then int (pos 95) else chosen in
      if eqb_ℤ run.result.issued (pos 0)
      then (int (pos 0), limit, false)
      else (run.result.completion_percent, limit, fl.lt run.result.completion_percent limit)

  -- `total := run.Result.Total; if total == 0 { total = Successes + Failures }`
  unfoldable pub finished_total : Run F → ℤ
  finished_total run =
      if eqb_ℤ run.result.total (pos 0)
      then run.result.successes +ℤ run.result.failures
      else run.result.total

  -- `float64(run.Result.Failures) * 100 / float64(total)`
  unfoldable pub error_percent : Run F → F
  unfolding finished_total
  error_percent run =
      fl.over (fl.times (int run.result.failures) (int (pos 100))) (int (finished_total run))

  -- `p95 := run.Result.Latency.P95Millis; if p95 == 0 { p95 = run.Result.P95Millis }`
  unfoldable pub latency_p95 : Run F → ℤ
  latency_p95 run =
      if eqb_ℤ run.result.latency.p95_millis (pos 0)
      then run.result.p95_millis
      else run.result.latency.p95_millis

  unfoldable pub ttft_too_slow : Run F → Bool
  ttft_too_slow run =
      ltb_ℤ (pos 0) run.config.max_ttft_p95_millis
      && ltb_ℤ run.config.max_ttft_p95_millis run.result.ttft.p95_millis

  unfoldable pub is_run_stable : Run F → Bool
  is_run_stable run =
      if eqb_ℤ (finished_total run) (pos 0)
      then false
      else if (completion_shortfall run).2
      then false
      else if fl.lt run.config.max_error_percent (error_percent run)
          || ltb_ℤ run.config.max_p95_millis (latency_p95 run)
      then false
      else if ttft_too_slow run
      then false
      else fl.eq run.config.min_output_tokens_per_second (int (pos 0))
        || fl.le run.config.min_output_tokens_per_second run.result.tokens.output_per_second

  unfoldable pub instability_message : Run F → Instability F
  instability_message run =
      if eqb_ℤ (finished_total run) (pos 0)
      then no_completed_requests
      else if (completion_shortfall run).2
      then too_few_finished (completion_shortfall run).0 run.result.issued
          (completion_shortfall run).1
      else if fl.lt run.config.max_error_percent (error_percent run)
      then error_rate (error_percent run) run.config.max_error_percent
      else if ltb_ℤ run.config.max_p95_millis (latency_p95 run)
      then latency (latency_p95 run) run.config.max_p95_millis
      else if ttft_too_slow run
      then ttft run.result.ttft.p95_millis run.config.max_ttft_p95_millis
      else if fl.lt (int (pos 0)) run.config.min_output_tokens_per_second
          && fl.lt run.result.tokens.output_per_second run.config.min_output_tokens_per_second
      then output_rate run.result.tokens.output_per_second run.config.min_output_tokens_per_second
      else unmet
