-- ===== src/Examples/Inputs.antt =====
-- A small configuration, an empty result and a run, over whole numbers in place of floats.
use load_observatory.Prelude.{ℕ, ℤ, pos, false, [], ◌∷◌, none}
use load_observatory.Core.Server.{ServerConfig}
use load_observatory.Core.Types.{
  RunConfig, RunResult, Run, Distribution, LoadMode, CachePolicy, WorkloadId, ArrivalPattern,
  Status, AutoSearch, AutoSearchStatus,
}

abbrev pub no_server : ServerConfig ℤ
no_server = record {
  version = "";
  model = "";
  max_num_seqs = pos 0;
  max_num_batched_tokens = pos 0;
  gpu_memory_utilization = pos 0;
  block_size = pos 0;
  tensor_parallel_size = pos 0;
  prefix_caching = "";
  chunked_prefill = "";
}

abbrev pub vu_config : ℕ → RunConfig ℤ
vu_config vus = record {
  target_id = 1;
  mode = LoadMode.vu;
  vus = pos vus;
  rps = pos 0;
  duration_seconds = pos 60;
  prompt = "hello";
  max_tokens = pos 128;
  max_error_percent = pos 2;
  max_p95_millis = pos 2000;
  max_ttft_p95_millis = pos 0;
  min_output_tokens_per_second = pos 0;
  cache_policy = CachePolicy.reuse;
  variation_percent = pos 0;
  workload_id = WorkloadId.unset;
  shards = pos 3;
  max_in_flight = pos 0;
  warmup_requests = pos 0;
  cooldown_seconds = pos 0;
  max_tpot_p95_millis = pos 0;
  min_goodput_percent = pos 0;
  stages = [];
  scenario = [];
  agent_workflow = false;
  journeys = [];
  drain_seconds = pos 30;
  steady_state_seconds = pos 10;
  min_completion_percent = pos 0;
  ignore_eos = false;
  server = no_server;
  accumulate_context = false;
  arrival_pattern = ArrivalPattern.unset;
  output_tokens_stdev = pos 0;
  prompt_pad_tokens = pos 0;
  prompt_pad_stdev = pos 0;
  trace = [];
  trace_time_scale = pos 0;
  sessions_per_vu = pos 0;
}

abbrev pub flat : ℕ → Distribution
flat n = record {
  min_millis = pos n;
  avg_millis = pos n;
  p50_millis = pos n;
  p95_millis = pos n;
  p99_millis = pos n;
  max_millis = pos n;
}

-- A hundred requests with a P95 of so many milliseconds.
abbrev pub result_at : ℕ → RunResult ℤ
result_at p95 = record {
  successes = pos 99;
  failures = pos 1;
  p95_millis = pos p95;
  ttft_p95_millis = pos 100;
  total = pos 100;
  throughput_rps = pos 10;
  latency = flat p95;
  ttft = flat 100;
  ttfo = flat 100;
  itl = flat 10;
  tpot = flat 10;
  tokens = record {
    prompt = pos 1000;
    completion = pos 5000;
    reasoning = pos 0;
    output_per_second = pos 80;
  };
  goodput_percent = pos 99;
  dropped_arrivals = pos 0;
  stopped_by_guardrail = false;
  guardrail_message = "";
  agent_sessions = pos 0;
  completed_sessions = pos 0;
  session_duration = flat 0;
  status_counts = (200, pos 99) ∷ (500, pos 1) ∷ [];
  errors = [];
  timeline = [];
  latency_scope = "";
  issued = pos 100;
  completed = pos 100;
  cancelled = pos 0;
  http_failures = pos 1;
  transport_errors = pos 0;
  completion_percent = pos 100;
  steady_seconds = pos 10;
  steady_samples = pos 80;
  scenarios = [];
  drained_seconds = pos 0;
  samples = none;
  missing_usage_responses = pos 0;
  content_chunks = pos 0;
  output_length_pinned = false;
  samples_decimated = false;
  context_accumulated = false;
  generator_delay = flat 1;
  latency_from_intended_arrival = false;
  backoff_events = pos 0;
  backoff_seconds = pos 0;
}

abbrev pub run_at : ℕ → ℕ → Run ℤ
run_at vus p95 = record {
  id = vus;
  status = Status.completed;
  search_id = none;
  config = vu_config vus;
  result = result_at p95;
  monitoring = [];
  progress = [];
  started_unix = pos 0;
  detected_server = no_server;
  created_by = "";
}

-- A search from 5 to 40 virtual users, with its ladder planned and nothing measured.
abbrev pub new_search : AutoSearch ℤ
new_search = record {
  id = 1;
  status = AutoSearchStatus.running;
  config = record { run = vu_config 5; start_load = pos 5; max_load = pos 40 };
  run_ids = [];
  next_load = pos 5;
  stable_load = pos 0;
  failed_load = pos 0;
  recommended_load = pos 0;
  message = none;
  ladder = 5 ∷ 10 ∷ 20 ∷ 40 ∷ [];
  steps = [];
  provision_load = pos 0;
}
