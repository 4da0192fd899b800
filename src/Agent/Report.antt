-- ===== src/Agent/Report.antt =====
-- internal/agent/runner.go: the result that an agent forms of its measurements, the progress that it
-- reports each second, and the counters of sessions and of dropped arrivals. `text_of` is the text of some
-- bytes.
pub mod Accounted
use load_observatory.Prelude.{
  ℕ, suc, ◌+◌, ℤ, pos, ◌-ℤ◌, max_ℤ, leb, ltb, ltb_ℤ, if◌then◌else◌, Bool, true, false, ◌||◌, List,
  [], ◌∷◌, Option, none, some, length, map, String,
}
use load_observatory.Prelude.Floats.{Floats}
use load_observatory.Prelude.Sorting.{sort_by}
use load_observatory.Core.Types.{
  RunConfig, RunResult, RunSamples, RunProgress, ScenarioResult, TimelinePoint, TokenUsage,
  Distribution, LoadMode, rps,
}
use load_observatory.Stats.{distribution, p95_of, zero_distribution}
use load_observatory.Agent.SampleSet.{SampleSet}
use load_observatory.Agent.Records.{
  Measurements, TimelineMeasurement, ScenarioMeasurement, Attempt, Guardrail, no_guardrail,
  e2e_exceeded, ttft_exceeded, tpot_exceeded, goodput_not_met, max_timeline_points, seconds_of,
}
use load_observatory.Agent.Measurements.{on_timeline, record_cancelled, record_transport_error}
use load_observatory.Agent.Success.{p95}

unfoldable pub record_dropped : Measurements → Measurements
record_dropped m = record m { dropped = suc m.dropped }

unfoldable pub start_session : Measurements → Measurements
start_session m = record m { sessions = suc m.sessions }

unfoldable pub complete_session : Bool → Measurements → Measurements
complete_session completed m = record m {
  completed_sessions = if completed then suc m.completed_sessions else m.completed_sessions;
}

-- recordAborted: whether the context was over, or the error says that it was cancelled.
unfoldable pub record_aborted : Bool → ℤ → Attempt → List ℕ → Measurements → Measurements
record_aborted was_cut now call message m =
    if was_cut then record_cancelled now call m else record_transport_error now call message m

-- `distribution` never goes out of range.
abbrev pub summary : SampleSet → Distribution
summary set = elim (distribution set.values) [ none ↦ zero_distribution | some d ↦ d ]

abbrev pub has_values : SampleSet → Bool
has_values set = leb 1 (length set.values)

abbrev pub message_of : Guardrail → String
message_of no_guardrail = ""
message_of e2e_exceeded = "E2E P95 SLO exceeded"
message_of ttft_exceeded = "TTFT P95 SLO exceeded"
message_of tpot_exceeded = "TPOT P95 SLO exceeded"
message_of goodput_not_met = "goodput SLO not met"

unfoldable pub point_of : ℤ × TimelineMeasurement → TimelinePoint
point_of (second, point) = record {
  second = second;
  requests = pos (point.successes + point.failures);
  successes = pos point.successes;
  failures = pos point.failures;
  p95_millis = elim (p95_of point.latencies) [ none ↦ pos 0 | some value ↦ value ];
  issued = pos point.issued;
  completed = pos point.completed;
  cancelled = pos point.cancelled;
  active = point.active;
  waiting = point.waiting;
  target_load = point.target_load;
}

-- The samples of a run, if there is one of a latency, a TTFT or a gap between tokens.
unfoldable pub samples_of : Measurements → Option RunSamples
samples_of m =
    if has_values m.latencies || has_values m.ttfts || has_values m.itls
    then some (record {
      latency = m.latencies.values;
      ttft = m.ttfts.values;
      ttfo = m.ttfos.values;
      itl = m.itls.values;
      tpot = m.tpots.values;
      decimated =
          m.latencies.decimated || m.ttfts.decimated || m.ttfos.decimated || m.itls.decimated
          || m.tpots.decimated;
    })
    else none

unfoldable pub scenario_samples : ScenarioMeasurement → Option RunSamples
scenario_samples entry =
    if has_values entry.latencies || has_values entry.ttfts
    then some (record {
      latency = entry.latencies.values;
      ttft = entry.ttfts.values;
      ttfo = [];
      itl = [];
      tpot = [];
      decimated = entry.latencies.decimated || entry.ttfts.decimated;
    })
    else none

abbrev pub is_decimated : Option RunSamples → Bool
is_decimated none = false
is_decimated (some samples) = samples.decimated

-- The load in time order, and one second's gauges.
unfoldable pub gauged : ℤ → ℤ → ℤ → TimelineMeasurement → TimelineMeasurement
gauged active waiting target point = record point {
  active = max_ℤ point.active active;
  waiting = max_ℤ point.waiting waiting;
  target_load = max_ℤ point.target_load target;
}

module _ {F : Type 0} ⦃fl : Floats F⦄ where
  abbrev pub seconds : ℤ → F
  seconds nanos = fl.over (fl.of_int nanos) (fl.of_int (pos 1000000000))

  -- `part * 100 / whole` if there is a whole.
  abbrev pub percent_of : ℕ → ℕ → F
  percent_of part whole =
      if leb 1 whole
      then fl.over (fl.times (fl.of_int (pos part)) (fl.of_int (pos 100))) (fl.of_int (pos whole))
      else fl.of_int (pos 0)

  -- A count for each second of a time, if it is over 0.
  abbrev pub rate_of : ℤ → F → F
  rate_of count elapsed =
      if fl.lt (fl.of_int (pos 0)) elapsed
      then fl.over (fl.of_int count) elapsed
      else fl.of_int (pos 0)

  unfoldable pub scenario_of : F → String × ScenarioMeasurement → ScenarioResult F
  unfolding scenario_samples
  scenario_of elapsed (name, entry) = record {
    name = name;
    issued = pos entry.issued;
    completed = pos entry.completed;
    failures = pos entry.failures;
    cancelled = pos entry.cancelled;
    completion_percent = percent_of entry.completed entry.issued;
    latency = summary entry.latencies;
    ttft = summary entry.ttfts;
    output_tokens = entry.output_tokens;
    output_per_second = rate_of entry.output_tokens elapsed;
    input_tokens = entry.input_tokens;
    samples = scenario_samples entry;
  }

  unfoldable pub result : (List ℕ → String) → ℤ → ℤ → RunConfig F → Measurements → RunResult F
  unfolding point_of samples_of
  result text_of drained now config m =
      let failures = m.http_failures + m.transport_errors in
      let total = m.successes + failures in
      let completed = m.successes + m.http_failures in
      let elapsed = seconds (now -ℤ m.started) in
      record {
        successes = pos m.successes;
        failures = pos failures;
        p95_millis = p95 m.latencies;
        ttft_p95_millis = p95 m.ttfts;
        total = pos total;
        throughput_rps = fl.over (fl.of_int (pos total)) elapsed;
        latency = summary m.latencies;
        ttft = summary m.ttfts;
        ttfo = summary m.ttfos;
        itl = summary m.itls;
        tpot = summary m.tpots;
        tokens = record {
          prompt = m.prompt_tokens;
          completion = m.completion_tokens;
          reasoning = m.reasoning_tokens;
          output_per_second = rate_of m.completion_tokens elapsed;
        };
        goodput_percent = percent_of m.goodput total;
        dropped_arrivals = pos m.dropped;
        stopped_by_guardrail = m.stopped;
        guardrail_message = message_of m.guardrail;
        agent_sessions = pos m.sessions;
        completed_sessions = pos m.completed_sessions;
        session_duration = zero_distribution;
        status_counts = map (λ (e : ℕ × ℕ). (e.0, pos e.1)) m.status_counts;
        errors = map text_of m.errors;
        timeline = sort_by (λ (point : TimelinePoint). point.second) (map point_of m.timeline);
        latency_scope = "";
        issued = pos m.issued;
        completed = pos completed;
        cancelled = pos m.cancelled;
        http_failures = pos m.http_failures;
        transport_errors = pos m.transport_errors;
        completion_percent = percent_of completed m.issued;
        steady_seconds = seconds_of m.steady_after;
        steady_samples = pos m.steady_samples;
        scenarios = map (scenario_of elapsed) m.scenarios;
        drained_seconds = drained;
        samples = samples_of m;
        missing_usage_responses = pos m.missing_usage;
        content_chunks = m.content_chunks;
        output_length_pinned = config.ignore_eos;
        samples_decimated = is_decimated (samples_of m);
        context_accumulated = config.accumulate_context;
        generator_delay = summary m.generator_delays;
        latency_from_intended_arrival = elim config.mode [ rps ↦ true | _ ↦ false ];
        backoff_events = pos m.backoff_events;
        backoff_seconds = fl.over (fl.of_int m.backoff_millis) (fl.of_int (pos 1000));
      }

  -- sampleGauges, from the gauges that are read. The shard's id is filled in by the store.
  unfoldable pub sample_gauges :
      ℤ → String → ℤ → ℤ → ℤ → Measurements → Measurements × RunProgress F
  sample_gauges now phase active waiting target m =
      let second = seconds_of (now -ℤ m.started) in
      let completed = m.successes + m.http_failures in
      (
        on_timeline second (gauged active waiting target) m,
        record {
          shard_id = 0;
          phase = phase;
          second = second;
          target_load = target;
          active = active;
          waiting = waiting;
          issued = pos m.issued;
          completed = pos completed;
          failures = pos (m.http_failures + m.transport_errors);
          cancelled = pos m.cancelled;
          dropped = pos m.dropped;
          completed_rps = rate_of (pos completed) (seconds (now -ℤ m.started));
        },
      )
