-- ===== src/Agent/Success.antt =====
-- internal/agent/runner.go: recordSuccess with meetsSLO and maybeStopLocked, the guardrails that end a run
-- early.
use load_observatory.Prelude.{
  ℕ, suc, ◌+◌, ℤ, pos, ◌+ℤ◌, ltb_ℤ, ltb, if◌then◌else◌, Bool, true, false, ◌&&◌, ◌||◌, not, none,
  some,
}
use load_observatory.Prelude.Floats.{Floats}
use load_observatory.Core.Types.{RunConfig}
use load_observatory.Stats.{p95_of}
use load_observatory.Agent.SampleSet.{SampleSet}
use load_observatory.Agent.Records.{
  Guardrail, Measurements, ModelTiming, Usage, Attempt, no_guardrail, e2e_exceeded, ttft_exceeded,
  tpot_exceeded, goodput_not_met, timeline_success,
}
use load_observatory.Agent.Measurements.{
  count_status, on_scenario, record_timeline, keep_samples, scenario_succeeded,
}

-- `limit > 0 && value > limit`
abbrev pub exceeds : ℤ → ℤ → Bool
exceeds limit value = ltb_ℤ (pos 0) limit && ltb_ℤ limit value

-- The P95 of a set; an empty one counts as 0 and no index is out of range.
unfoldable pub p95 : SampleSet → ℤ
p95 set = elim (p95_of set.values) [ none ↦ pos 0 | some value ↦ value ]

abbrev pub is_broken : Guardrail → Bool
is_broken no_guardrail = false
is_broken _ = true

module _ {F : Type 0} ⦃fl : Floats F⦄ where
  unfoldable pub meets_slo : ℤ → ModelTiming → Usage → RunConfig F → Bool
  meets_slo latency timing usage config =
      if exceeds config.max_p95_millis latency
        || exceeds config.max_ttft_p95_millis timing.ttft
        || exceeds config.max_tpot_p95_millis timing.tpot
      then false
      else not (
          fl.lt (fl.of_int (pos 0)) config.min_output_tokens_per_second
          && ltb_ℤ (pos 0) latency
          && fl.lt
              (fl.over (fl.times (fl.of_int usage.completion) (fl.of_int (pos 1000)))
                (fl.of_int latency))
              config.min_output_tokens_per_second)

  -- The first guardrail that is not kept.
  unfoldable pub broken_guardrail : RunConfig F → Measurements → Guardrail
  broken_guardrail config m =
      let finished = m.successes + m.http_failures + m.transport_errors in
      if exceeds config.max_p95_millis (p95 m.latencies)
      then e2e_exceeded
      else if exceeds config.max_ttft_p95_millis (p95 m.ttfts)
      then ttft_exceeded
      else if exceeds config.max_tpot_p95_millis (p95 m.tpots)
      then tpot_exceeded
      else if fl.lt (fl.of_int (pos 0)) config.min_goodput_percent
          && ltb 0 finished
          && fl.lt
              (fl.over (fl.times (fl.of_int (pos m.goodput)) (fl.of_int (pos 100)))
                (fl.of_int (pos finished)))
              config.min_goodput_percent
      then goodput_not_met
      else no_guardrail

  -- The guardrail that maybeStopLocked finds broken; it looks only if no one was, at 10 samples or more.
  unfoldable pub found_broken : RunConfig F → Measurements → Guardrail
  found_broken config m =
      if m.stopped || ltb m.steady_samples 10 then no_guardrail else broken_guardrail config m

  -- maybeStopLocked; the call of `m.stop` cancels the context of the run.
  unfoldable pub maybe_stop : RunConfig F → Measurements → Measurements
  maybe_stop config m =
      let broken = found_broken config m in
      record m {
        stopped = if is_broken broken then true else m.stopped;
        guardrail = if is_broken broken then broken else m.guardrail;
      }

  unfoldable pub record_success :
      ℤ → Attempt → ℤ → ModelTiming → ℕ → Usage → RunConfig F → Measurements → Measurements
  record_success now call latency timing status usage config m =
      let counted = record m { consecutive_failures = 0; successes = suc m.successes } in
      let sampled = keep_samples call.steady latency timing counted in
      let totals = record sampled {
        status_counts = count_status status sampled.status_counts;
        prompt_tokens = sampled.prompt_tokens +ℤ usage.prompt;
        completion_tokens = sampled.completion_tokens +ℤ usage.completion;
        reasoning_tokens = sampled.reasoning_tokens +ℤ usage.reasoning;
        content_chunks = sampled.content_chunks +ℤ timing.chunks;
        missing_usage =
            if timing.usage_reported then sampled.missing_usage else suc sampled.missing_usage;
        goodput =
            if meets_slo latency timing usage config then suc sampled.goodput else sampled.goodput;
      } in
      maybe_stop config (
        record_timeline now latency timeline_success
          (on_scenario call.scenario (scenario_succeeded call.steady latency timing usage) totals))
