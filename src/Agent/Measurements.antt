-- ===== src/Agent/Measurements.antt =====
-- internal/agent/runner.go: measurements, what an agent counts and keeps while it runs. A method under
-- the mutex is one function; the atomic counter of failures in a row is a field too. Times come in as
-- arguments. Success of an attempt is in Agent/Success.
pub mod Events
pub mod Bounded
use load_observatory.Prelude.{
  ℕ, zero, suc, ◌+◌, ◌*◌, ◌/◌, ◌%◌, ℤ, pos, ◌+ℤ◌, ◌-ℤ◌, times_ℤ, over_ℤ, max_ℤ, ltb_ℤ, eqb_ℤ, leb,
  ltb, ◌==◌, if◌then◌else◌, Bool, true, false, ◌&&◌, ◌||◌, not, List, [], ◌∷◌, ◌++◌, Option, none,
  some, length, String,
}
use mathlib.Core.List.{take}
use load_observatory.Prelude.Floats.{Floats}
use load_observatory.Core.Server.{eqb_text}
use load_observatory.Core.Types.{RunConfig}
use load_observatory.Stats.{p95_of}
use load_observatory.Agent.SampleSet
use load_observatory.Agent.SampleSet.{SampleSet, max_samples_per_metric}
use load_observatory.Agent.Records.{
  TimelineMeasurement, ScenarioMeasurement, Guardrail, Measurements, ModelTiming, Usage, Attempt,
  TimelineOutcome, max_timeline_points, max_second_samples, seconds_of, millis_of, zero_timeline,
  zero_scenario, no_guardrail, e2e_exceeded, ttft_exceeded, tpot_exceeded, goodput_not_met,
  timeline_success, timeline_failure, timeline_cancelled,
}

-- timelineAtLocked and what its caller does with the point: a second that is new is added if there is
-- room, and otherwise nothing happens.
unfoldable pub at_second :
    Bool
    → ℤ
    → (TimelineMeasurement → TimelineMeasurement)
    → List (ℤ × TimelineMeasurement)
    → List (ℤ × TimelineMeasurement)
at_second false second change [] = []
at_second true second change [] = (second, change zero_timeline) ∷ []
at_second room second change ((held, point) ∷ rest) =
    let later = at_second room second change rest in
    if eqb_ℤ held second then (held, change point) ∷ rest else (held, point) ∷ later

-- scenarioLocked and what its caller does with the entry.
unfoldable pub at_scenario :
    String
    → (ScenarioMeasurement → ScenarioMeasurement)
    → List (String × ScenarioMeasurement)
    → List (String × ScenarioMeasurement)
at_scenario name change [] = (name, change zero_scenario) ∷ []
at_scenario name change ((held, entry) ∷ rest) =
    let later = at_scenario name change rest in
    if eqb_text held name then (held, change entry) ∷ rest else (held, entry) ∷ later

unfoldable pub count_status : ℕ → List (ℕ × ℕ) → List (ℕ × ℕ)
count_status code [] = (code, 1) ∷ []
count_status code ((held, n) ∷ rest) =
    let later = count_status code rest in
    if held == code then (held, suc n) ∷ rest else (held, n) ∷ later

-- `m.latencies.add(value)`, with the program's cap.
unfoldable pub keep_sample : SampleSet → ℤ → SampleSet
keep_sample set sample = SampleSet.add max_samples_per_metric set sample

unfoldable pub on_timeline :
    ℤ → (TimelineMeasurement → TimelineMeasurement) → Measurements → Measurements
on_timeline second change m = record m {
  timeline = at_second (ltb (length m.timeline) max_timeline_points) second change m.timeline;
}

-- `if scenario != "" { ... }`
unfoldable pub on_scenario :
    String → (ScenarioMeasurement → ScenarioMeasurement) → Measurements → Measurements
on_scenario name change m = record m {
  scenarios = if eqb_text name "" then m.scenarios else at_scenario name change m.scenarios;
}

unfoldable pub keep_latency : ℤ → List ℤ → List ℤ
keep_latency latency latencies =
    if ltb (length latencies) max_second_samples then latencies ++ (latency ∷ []) else latencies

-- The body of recordTimelineLocked for a point.
unfoldable pub record_outcome : ℤ → TimelineOutcome → TimelineMeasurement → TimelineMeasurement
record_outcome latency timeline_success point = record point {
  successes = suc point.successes;
  completed = suc point.completed;
  latencies = keep_latency latency point.latencies;
}
record_outcome latency timeline_failure point = record point {
  failures = suc point.failures;
  completed = suc point.completed;
  latencies = keep_latency latency point.latencies;
}
record_outcome latency timeline_cancelled point = record point { cancelled = suc point.cancelled }

unfoldable pub record_timeline : ℤ → ℤ → TimelineOutcome → Measurements → Measurements
record_timeline now latency outcome m =
    on_timeline (seconds_of (now -ℤ m.started)) (record_outcome latency outcome) m

-- reset: the atomic counters of failures and back-offs stay.
unfoldable pub reset : ℤ → Measurements → Measurements
reset now m = record m {
  started = now;
  issued = 0;
  cancelled = 0;
  http_failures = 0;
  transport_errors = 0;
  successes = 0;
  goodput = 0;
  dropped = 0;
  sessions = 0;
  completed_sessions = 0;
  stopped = false;
  guardrail = no_guardrail;
  latencies = SampleSet.empty;
  ttfts = SampleSet.empty;
  ttfos = SampleSet.empty;
  itls = SampleSet.empty;
  tpots = SampleSet.empty;
  generator_delays = SampleSet.empty;
  steady_samples = 0;
  missing_usage = 0;
  content_chunks = pos 0;
  status_counts = [];
  errors = [];
  prompt_tokens = pos 0;
  completion_tokens = pos 0;
  reasoning_tokens = pos 0;
  timeline = [];
  scenarios = [];
}

-- `if scheduled.IsZero() || scheduled.After(now) { scheduled = now }`
unfoldable pub due_at : ℤ → Option ℤ → ℤ
due_at now none = now
due_at now (some scheduled) = if ltb_ℤ now scheduled then now else scheduled

unfoldable pub count_issued : TimelineMeasurement → TimelineMeasurement
count_issued point = record point { issued = suc point.issued }

unfoldable pub scenario_issued : ScenarioMeasurement → ScenarioMeasurement
scenario_issued entry = record entry { issued = suc entry.issued }

unfoldable pub begin_attempt : ℤ → String → Option ℤ → Measurements → Measurements × Attempt
begin_attempt now scenario scheduled m =
    let due = due_at now scheduled in
    let offset = due -ℤ m.started in
    let counted = record m {
      issued = suc m.issued;
      generator_delays = keep_sample m.generator_delays (millis_of (now -ℤ due));
    } in
    (
      on_scenario scenario scenario_issued (on_timeline (seconds_of offset) count_issued counted),
      record {
        scheduled_at = due;
        started_at = now;
        scenario = scenario;
        steady = not (ltb_ℤ offset m.steady_after);
      },
    )

unfoldable pub scenario_cancelled : ScenarioMeasurement → ScenarioMeasurement
scenario_cancelled entry = record entry { cancelled = suc entry.cancelled }

unfoldable pub scenario_failed : ScenarioMeasurement → ScenarioMeasurement
scenario_failed entry = record entry { failures = suc entry.failures }

-- An answer with an error status is a failure that completed.
unfoldable pub scenario_refused : ScenarioMeasurement → ScenarioMeasurement
scenario_refused entry = record entry {
  failures = suc entry.failures;
  completed = suc entry.completed;
}

unfoldable pub record_cancelled : ℤ → Attempt → Measurements → Measurements
record_cancelled now call m =
    record_timeline now (millis_of (now -ℤ call.scheduled_at)) timeline_cancelled
      (on_scenario call.scenario scenario_cancelled (record m { cancelled = suc m.cancelled }))

unfoldable pub max_errors : ℕ
max_errors = 20

unfoldable pub append_error : List ℕ → List (List ℕ) → List (List ℕ)
append_error message errors =
    if leb max_errors (length errors) then errors else errors ++ (take 180 message ∷ [])

unfoldable pub record_transport_error : ℤ → Attempt → List ℕ → Measurements → Measurements
record_transport_error now call message m =
    record_timeline now (millis_of (now -ℤ call.scheduled_at)) timeline_failure (
      on_scenario call.scenario scenario_failed (record m {
        consecutive_failures = suc m.consecutive_failures;
        transport_errors = suc m.transport_errors;
        errors = append_error message m.errors;
      }))

unfoldable pub record_http_failure : ℤ → Attempt → ℤ → ℕ → List ℕ → Measurements → Measurements
record_http_failure now call latency status message m =
    record_timeline now latency timeline_failure (
      on_scenario call.scenario scenario_refused (record m {
        consecutive_failures = suc m.consecutive_failures;
        http_failures = suc m.http_failures;
        status_counts = count_status status m.status_counts;
        errors = append_error message m.errors;
      }))

-- The samples of a steady attempt.
unfoldable pub keep_samples : Bool → ℤ → ModelTiming → Measurements → Measurements
keep_samples steady latency timing m = record m {
  steady_samples = if steady then suc m.steady_samples else m.steady_samples;
  latencies = if steady then keep_sample m.latencies latency else m.latencies;
  ttfts = if steady then keep_sample m.ttfts timing.ttft else m.ttfts;
  ttfos = if steady then keep_sample m.ttfos timing.ttfo else m.ttfos;
  itls = if steady then SampleSet.add_all max_samples_per_metric m.itls timing.itls else m.itls;
  tpots = if steady && ltb_ℤ (pos 0) timing.tpot then keep_sample m.tpots timing.tpot else m.tpots;
}

unfoldable pub scenario_succeeded :
    Bool → ℤ → ModelTiming → Usage → ScenarioMeasurement → ScenarioMeasurement
scenario_succeeded steady latency timing usage entry = record entry {
  completed = suc entry.completed;
  output_tokens = entry.output_tokens +ℤ usage.completion;
  input_tokens = entry.input_tokens +ℤ usage.prompt;
  latencies = if steady then keep_sample entry.latencies latency else entry.latencies;
  ttfts = if steady then keep_sample entry.ttfts timing.ttft else entry.ttfts;
}
