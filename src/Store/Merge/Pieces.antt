-- ===== src/Store/Merge/Pieces.antt =====
-- internal/store/store.go: the helpers of the merge of shard results.
use text.Mathlib.Text.{◌==◌ as str_eq}
use load_observatory.Prelude.{
  ℕ, ℤ, pos, ◌+ℤ◌, times_ℤ, over_ℤ, ltb_ℤ, eqb_ℤ, max_ℤ, min_ℤ, ◌==◌, if◌then◌else◌, true, false,
  List, [], ◌∷◌, ◌++◌, Option, none, some, String,
}
use load_observatory.Prelude.Floats.{Floats}
use load_observatory.Prelude.Sorting.{sort_by}
use load_observatory.Core.Types.{RunResult, RunSamples, ScenarioResult, TimelinePoint, Distribution}
use load_observatory.Stats.{zero_distribution, distribution}

unfoldable pub no_samples : RunSamples
no_samples = record { latency = []; ttft = []; ttfo = []; itl = []; tpot = []; decimated = false }

unfoldable pub append_samples : RunSamples → RunSamples → RunSamples
append_samples into from = record {
  latency = into.latency ++ from.latency;
  ttft = into.ttft ++ from.ttft;
  ttfo = into.ttfo ++ from.ttfo;
  itl = into.itl ++ from.itl;
  tpot = into.tpot ++ from.tpot;
  decimated = if from.decimated then true else into.decimated;
}

-- `if samples != nil { appendSamples(...) }`
unfoldable pub append_option : RunSamples → Option RunSamples → RunSamples
unfolding append_samples
append_option into none = into
append_option into (some from) = append_samples into from

-- `distribution` never goes out of range; the zero value would stand for a panic.
unfoldable pub distribution_of : List ℤ → Distribution
unfolding zero_distribution
distribution_of values = elim (distribution values) [ none ↦ zero_distribution | some d ↦ d ]

-- The pooled distribution of `values` if the samples `present` are not empty.
unfoldable pub pooled_or : List ℤ → List ℤ → Distribution → Distribution
unfolding distribution_of
pooled_or [] values otherwise = otherwise
pooled_or (sample ∷ rest) values otherwise = distribution_of values

unfoldable pub merge_distribution : Distribution → Distribution → ℤ → ℤ → Distribution
merge_distribution current next current_weight next_weight =
    if eqb_ℤ current_weight (pos 0) then next else record {
      min_millis = min_ℤ current.min_millis next.min_millis;
      avg_millis =
          over_ℤ (times_ℤ current.avg_millis current_weight +ℤ times_ℤ next.avg_millis next_weight)
            (current_weight +ℤ next_weight);
      p50_millis = max_ℤ current.p50_millis next.p50_millis;
      p95_millis = max_ℤ current.p95_millis next.p95_millis;
      p99_millis = max_ℤ current.p99_millis next.p99_millis;
      max_millis = max_ℤ current.max_millis next.max_millis;
    }

unfoldable pub merge_timeline_point : TimelinePoint → TimelinePoint → TimelinePoint
merge_timeline_point current next = record {
  second = next.second;
  requests = current.requests +ℤ next.requests;
  successes = current.successes +ℤ next.successes;
  failures = current.failures +ℤ next.failures;
  p95_millis = max_ℤ current.p95_millis next.p95_millis;
  issued = current.issued +ℤ next.issued;
  completed = current.completed +ℤ next.completed;
  cancelled = current.cancelled +ℤ next.cancelled;
  active = current.active +ℤ next.active;
  waiting = current.waiting +ℤ next.waiting;
  target_load = current.target_load +ℤ next.target_load;
}

unfoldable pub zero_point : TimelinePoint
zero_point = record {
  second = pos 0;
  requests = pos 0;
  successes = pos 0;
  failures = pos 0;
  p95_millis = pos 0;
  issued = pos 0;
  completed = pos 0;
  cancelled = pos 0;
  active = pos 0;
  waiting = pos 0;
  target_load = pos 0;
}

-- `timeline[point.Second] = mergeTimelinePoint(timeline[point.Second], point)`: the map is keyed by the
-- second of its points.
unfoldable pub add_point : List TimelinePoint → TimelinePoint → List TimelinePoint
unfolding merge_timeline_point zero_point
add_point [] point = merge_timeline_point zero_point point ∷ []
add_point (current ∷ rest) point =
    if eqb_ℤ current.second point.second
    then merge_timeline_point current point ∷ rest
    else current ∷ add_point rest point

unfoldable pub merge_points : List TimelinePoint → List TimelinePoint → List TimelinePoint
merge_points timeline [] = timeline
merge_points timeline (point ∷ rest) = merge_points (add_point timeline point) rest

abbrev pub second_of : TimelinePoint → ℤ
second_of point = point.second

unfoldable pub sorted_timeline : List TimelinePoint → List TimelinePoint
sorted_timeline points = sort_by second_of points

-- `scenarios[name]` and `scenarioSamples[name]`, in the order of `scenarioOrder`.
pub record Step (F : Type 0) : Type 0 where
  pub result : ScenarioResult F
  pub samples : RunSamples

unfoldable pub add_count : ℕ → ℤ → List (ℕ × ℤ) → List (ℕ × ℤ)
add_count code n [] = (code, pos 0 +ℤ n) ∷ []
add_count code n ((other, m) ∷ rest) =
    if other == code then (other, m +ℤ n) ∷ rest else (other, m) ∷ add_count code n rest

unfoldable pub add_counts : List (ℕ × ℤ) → List (ℕ × ℤ) → List (ℕ × ℤ)
add_counts counts [] = counts
add_counts counts ((code, n) ∷ rest) = add_counts (add_count code n counts) rest

module _ {F : Type 0} ⦃fl : Floats F⦄ where
  unfoldable pub zero_scenario : String → ScenarioResult F
  zero_scenario name = record {
    name = name;
    issued = pos 0;
    completed = pos 0;
    failures = pos 0;
    cancelled = pos 0;
    completion_percent = fl.of_int (pos 0);
    latency = zero_distribution;
    ttft = zero_distribution;
    output_tokens = pos 0;
    output_per_second = fl.of_int (pos 0);
    input_tokens = pos 0;
    samples = none;
  }

  unfoldable pub merge_scenario : ScenarioResult F → ScenarioResult F → ScenarioResult F
  merge_scenario current next =
      let previous = current.completed in
      let any = ltb_ℤ (pos 0) next.completed in
      record current {
        issued = current.issued +ℤ next.issued;
        completed = current.completed +ℤ next.completed;
        failures = current.failures +ℤ next.failures;
        cancelled = current.cancelled +ℤ next.cancelled;
        output_tokens = current.output_tokens +ℤ next.output_tokens;
        input_tokens = current.input_tokens +ℤ next.input_tokens;
        output_per_second = fl.plus current.output_per_second next.output_per_second;
        latency =
            if any
            then merge_distribution current.latency next.latency previous next.completed
            else current.latency;
        ttft =
            if any
            then merge_distribution current.ttft next.ttft previous next.completed
            else current.ttft;
      }

  merged_step : Step F → ScenarioResult F → Step F
  merged_step step scenario = record {
    result = merge_scenario step.result scenario;
    samples = append_option step.samples scenario.samples;
  }

  unfoldable pub merge_step : List (Step F) → ScenarioResult F → List (Step F)
  unfolding merged_step zero_scenario no_samples
  merge_step [] scenario =
      merged_step (record { result = zero_scenario scenario.name; samples = no_samples }) scenario
      ∷ []
  merge_step (step ∷ rest) scenario =
      if str_eq step.result.name scenario.name
      then merged_step step scenario ∷ rest
      else step ∷ merge_step rest scenario

  unfoldable pub merge_steps : List (Step F) → List (ScenarioResult F) → List (Step F)
  merge_steps steps [] = steps
  merge_steps steps (scenario ∷ rest) = merge_steps (merge_step steps scenario) rest

  -- The statements of the loop that add, take the larger, join, or overwrite.
  unfoldable pub merge_counts : RunResult F → RunResult F → RunResult F
  merge_counts merged value = record merged {
    successes = merged.successes +ℤ value.successes;
    failures = merged.failures +ℤ value.failures;
    total = merged.total +ℤ value.total;
    dropped_arrivals = merged.dropped_arrivals +ℤ value.dropped_arrivals;
    agent_sessions = merged.agent_sessions +ℤ value.agent_sessions;
    completed_sessions = merged.completed_sessions +ℤ value.completed_sessions;
    issued = merged.issued +ℤ value.issued;
    completed = merged.completed +ℤ value.completed;
    cancelled = merged.cancelled +ℤ value.cancelled;
    http_failures = merged.http_failures +ℤ value.http_failures;
    transport_errors = merged.transport_errors +ℤ value.transport_errors;
    steady_samples = merged.steady_samples +ℤ value.steady_samples;
    steady_seconds = max_ℤ merged.steady_seconds value.steady_seconds;
    drained_seconds = max_ℤ merged.drained_seconds value.drained_seconds;
    missing_usage_responses = merged.missing_usage_responses +ℤ value.missing_usage_responses;
    content_chunks = merged.content_chunks +ℤ value.content_chunks;
    output_length_pinned = value.output_length_pinned;
    context_accumulated = value.context_accumulated;
    latency_from_intended_arrival =
        if value.latency_from_intended_arrival then true else merged.latency_from_intended_arrival;
    samples_decimated = if value.samples_decimated then true else merged.samples_decimated;
    tokens = record (merged.tokens) {
      prompt = merged.tokens.prompt +ℤ value.tokens.prompt;
      completion = merged.tokens.completion +ℤ value.tokens.completion;
      reasoning = merged.tokens.reasoning +ℤ value.tokens.reasoning;
    };
    errors = merged.errors ++ value.errors;
    stopped_by_guardrail = if value.stopped_by_guardrail then true else merged.stopped_by_guardrail;
    guardrail_message =
        if value.stopped_by_guardrail then value.guardrail_message else merged.guardrail_message;
    status_counts = add_counts merged.status_counts value.status_counts;
  }
