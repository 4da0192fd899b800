-- ===== src/Agent/Records.antt =====
-- internal/agent/runner.go: the records of `measurements`, and what a reading of the clock counts as. Times
-- and durations are nanoseconds; a text that is cut is a list of bytes.
use load_observatory.Prelude.{ℕ, ℤ, pos, over_ℤ, Bool, List, [], String}
use load_observatory.Agent.SampleSet
use load_observatory.Agent.SampleSet.{SampleSet, max_samples_per_metric}

pub record TimelineMeasurement : Type 0 where
  pub issued : ℕ
  pub completed : ℕ
  pub successes : ℕ
  pub failures : ℕ
  pub cancelled : ℕ
  pub active : ℤ
  pub waiting : ℤ
  pub target_load : ℤ
  pub latencies : List ℤ

pub record ScenarioMeasurement : Type 0 where
  pub issued : ℕ
  pub completed : ℕ
  pub failures : ℕ
  pub cancelled : ℕ
  pub latencies : SampleSet
  pub ttfts : SampleSet
  pub output_tokens : ℤ
  pub input_tokens : ℤ

-- The texts that `guardrail` may be.
pub data Guardrail : Type 0 where
  no_guardrail e2e_exceeded ttft_exceeded tpot_exceeded goodput_not_met : Guardrail

-- `scenarios` is the map and `scenarioOrder` in one: the entries in the order of their names.
pub record Measurements : Type 0 where
  pub started : ℤ
  pub steady_after : ℤ
  pub issued : ℕ
  pub cancelled : ℕ
  pub http_failures : ℕ
  pub transport_errors : ℕ
  pub successes : ℕ
  pub goodput : ℕ
  pub dropped : ℕ
  pub sessions : ℕ
  pub completed_sessions : ℕ
  pub latencies : SampleSet
  pub ttfts : SampleSet
  pub ttfos : SampleSet
  pub itls : SampleSet
  pub tpots : SampleSet
  pub generator_delays : SampleSet
  pub steady_samples : ℕ
  pub missing_usage : ℕ
  pub content_chunks : ℤ
  pub status_counts : List (ℕ × ℕ)
  pub errors : List (List ℕ)
  pub prompt_tokens : ℤ
  pub completion_tokens : ℤ
  pub reasoning_tokens : ℤ
  pub timeline : List (ℤ × TimelineMeasurement)
  pub scenarios : List (String × ScenarioMeasurement)
  pub consecutive_failures : ℕ
  pub backoff_events : ℕ
  pub backoff_millis : ℤ
  pub stopped : Bool
  pub guardrail : Guardrail

pub record ModelTiming : Type 0 where
  pub ttft : ℤ
  pub ttfo : ℤ
  pub tpot : ℤ
  pub itls : List ℤ
  pub chunks : ℤ
  pub usage_reported : Bool

pub record Usage : Type 0 where
  pub prompt : ℤ
  pub completion : ℤ
  pub reasoning : ℤ

pub record Attempt : Type 0 where
  pub scheduled_at : ℤ
  pub started_at : ℤ
  pub scenario : String
  pub steady : Bool

pub data TimelineOutcome : Type 0 where
  timeline_success timeline_failure timeline_cancelled : TimelineOutcome

-- `core.MaxDurationSeconds + 600`
unfoldable pub max_timeline_points : ℕ
max_timeline_points = 4200

unfoldable pub max_second_samples : ℕ
max_second_samples = 1000

-- `int64(d.Seconds())` and `d.Milliseconds()`; the float is exact enough for a run's length.
abbrev pub seconds_of : ℤ → ℤ
seconds_of duration = over_ℤ duration (pos 1000000000)

abbrev pub millis_of : ℤ → ℤ
millis_of duration = over_ℤ duration (pos 1000000)

unfoldable pub zero_timeline : TimelineMeasurement
zero_timeline = record {
  issued = 0;
  completed = 0;
  successes = 0;
  failures = 0;
  cancelled = 0;
  active = pos 0;
  waiting = pos 0;
  target_load = pos 0;
  latencies = [];
}

unfoldable pub zero_scenario : ScenarioMeasurement
zero_scenario = record {
  issued = 0;
  completed = 0;
  failures = 0;
  cancelled = 0;
  latencies = SampleSet.empty;
  ttfts = SampleSet.empty;
  output_tokens = pos 0;
  input_tokens = pos 0;
}
