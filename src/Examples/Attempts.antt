-- ===== src/Examples/Attempts.antt =====
-- Three attempts of an agent (internal/agent/runner.go) after its warm-up.
use load_observatory.Prelude.{ℤ, pos, refl, List, [], ◌∷◌, some, none, true, false}
use load_observatory.Prelude.Floats.{whole}
use load_observatory.Agent.SampleSet.{empty}
use load_observatory.Agent.Records.{Measurements, Attempt, ModelTiming, Usage, Guardrail}
use load_observatory.Agent.Measurements.{reset}
use load_observatory.Agent.Measurements.Events.{
  Event, began, succeeded, refused, handle_all, Balanced, handle_all-Balanced,
}
use load_observatory.Agent.Measurements.Bounded.{IsBounded, handle_all-IsBounded}
use load_observatory.Examples.Inputs.{vu_config}

abbrev pub warmed_up : Measurements
warmed_up = record {
  started = pos 0;
  steady_after = pos 2000000000;
  issued = 1;
  cancelled = 0;
  http_failures = 0;
  transport_errors = 0;
  successes = 1;
  goodput = 1;
  dropped = 0;
  sessions = 0;
  completed_sessions = 0;
  latencies = empty;
  ttfts = empty;
  ttfos = empty;
  itls = empty;
  tpots = empty;
  generator_delays = empty;
  steady_samples = 0;
  missing_usage = 0;
  content_chunks = pos 0;
  status_counts = [];
  errors = [];
  prompt_tokens = pos 0;
  completion_tokens = pos 0;
  reasoning_tokens = pos 0;
  timeline = [];
  scenarios = [];
  consecutive_failures = 0;
  backoff_events = 0;
  backoff_millis = pos 0;
  stopped = false;
  guardrail = Guardrail.no_guardrail;
}

abbrev pub call : Attempt
call = record {
  scheduled_at = pos 5000000000;
  started_at = pos 5000000000;
  scenario = "chat";
  steady = true;
}

abbrev timing : ModelTiming
timing = record {
  ttft = pos 90;
  ttfo = pos 95;
  tpot = pos 12;
  itls = pos 11 ∷ pos 13 ∷ [];
  chunks = pos 3;
  usage_reported = true;
}

abbrev usage : Usage
usage = record { prompt = pos 20; completion = pos 30; reasoning = pos 0 }

-- The second attempt is refused and the third is still under way.
abbrev events : List (Event ℤ)
events =
    began (pos 5000000000) "chat" none
    ∷ began (pos 5100000000) "chat" (some (pos 5000000000))
    ∷ succeeded (pos 5400000000) call (pos 400) timing 200 usage (vu_config 10)
    ∷ began (pos 5500000000) "" none
    ∷ refused (pos 5600000000) call (pos 500) 503 (98 ∷ [])
    ∷ []

handle_all-Balanced_example : Balanced 1 (handle_all (reset (pos 4000000000) warmed_up) events)
handle_all-Balanced_example = handle_all-Balanced warmed_up (pos 4000000000) events 1 refl

handle_all-IsBounded_example : IsBounded (handle_all (reset (pos 4000000000) warmed_up) events)
handle_all-IsBounded_example = handle_all-IsBounded warmed_up (pos 4000000000) events
