-- ===== src/Store/Zero.antt =====
-- The zero values that reading a missing key of a Go map yields (internal/store/store.go: `s.runs[id]`
-- without the second result). The id 0 stands for the empty string, which is never minted.
use load_observatory.Prelude.{pos, false, [], Option, none, some}
use load_observatory.Prelude.Floats.{Floats}
use load_observatory.Core.Server.{ServerConfig}
use load_observatory.Core.Types.{
  ArrivalPattern, CachePolicy, LoadMode, Run, RunConfig, RunResult, Status, WorkloadId,
}
use load_observatory.Stats.{zero_distribution}

module _ {F : Type 0} ⦃fl : Floats F⦄ where
  unfoldable pub zero_server : ServerConfig F
  zero_server = record {
    version = "";
    model = "";
    max_num_seqs = pos 0;
    max_num_batched_tokens = pos 0;
    gpu_memory_utilization = fl.of_int (pos 0);
    block_size = pos 0;
    tensor_parallel_size = pos 0;
    prefix_caching = "";
    chunked_prefill = "";
  }

  unfoldable pub zero_result : RunResult F
  zero_result = record {
    successes = pos 0;
    failures = pos 0;
    p95_millis = pos 0;
    ttft_p95_millis = pos 0;
    total = pos 0;
    throughput_rps = fl.of_int (pos 0);
    latency = zero_distribution;
    ttft = zero_distribution;
    ttfo = zero_distribution;
    itl = zero_distribution;
    tpot = zero_distribution;
    tokens = record {
      prompt = pos 0;
      completion = pos 0;
      reasoning = pos 0;
      output_per_second = fl.of_int (pos 0);
    };
    goodput_percent = fl.of_int (pos 0);
    dropped_arrivals = pos 0;
    stopped_by_guardrail = false;
    guardrail_message = "";
    agent_sessions = pos 0;
    completed_sessions = pos 0;
    session_duration = zero_distribution;
    status_counts = [];
    errors = [];
    timeline = [];
    latency_scope = "";
    issued = pos 0;
    completed = pos 0;
    cancelled = pos 0;
    http_failures = pos 0;
    transport_errors = pos 0;
    completion_percent = fl.of_int (pos 0);
    steady_seconds = pos 0;
    steady_samples = pos 0;
    scenarios = [];
    drained_seconds = pos 0;
    samples = none;
    missing_usage_responses = pos 0;
    content_chunks = pos 0;
    output_length_pinned = false;
    samples_decimated = false;
    context_accumulated = false;
    generator_delay = zero_distribution;
    latency_from_intended_arrival = false;
    backoff_events = pos 0;
    backoff_seconds = fl.of_int (pos 0);
  }

  unfoldable pub zero_config : RunConfig F
  unfolding zero_server
  zero_config = record {
    target_id = 0;
    mode = LoadMode.other "";
    vus = pos 0;
    rps = pos 0;
    duration_seconds = pos 0;
    prompt = "";
    max_tokens = pos 0;
    max_error_percent = fl.of_int (pos 0);
    max_p95_millis = pos 0;
    max_ttft_p95_millis = pos 0;
    min_output_tokens_per_second = fl.of_int (pos 0);
    cache_policy = CachePolicy.unset;
    variation_percent = pos 0;
    workload_id = WorkloadId.unset;
    shards = pos 0;
    max_in_flight = pos 0;
    warmup_requests = pos 0;
    cooldown_seconds = pos 0;
    max_tpot_p95_millis = pos 0;
    min_goodput_percent = fl.of_int (pos 0);
    stages = [];
    scenario = [];
    agent_workflow = false;
    journeys = [];
    drain_seconds = pos 0;
    steady_state_seconds = pos 0;
    min_completion_percent = fl.of_int (pos 0);
    ignore_eos = false;
    server = zero_server;
    accumulate_context = false;
    arrival_pattern = ArrivalPattern.unset;
    output_tokens_stdev = pos 0;
    prompt_pad_tokens = pos 0;
    prompt_pad_stdev = pos 0;
    trace = [];
    trace_time_scale = fl.of_int (pos 0);
    sessions_per_vu = pos 0;
  }

  unfoldable pub zero_run : Run F
  unfolding zero_config zero_server zero_result
  zero_run = record {
    id = 0;
    status = Status.unset;
    search_id = none;
    config = zero_config;
    result = zero_result;
    monitoring = [];
    progress = [];
    started_unix = pos 0;
    detected_server = zero_server;
    created_by = "";
  }

  -- `s.runs[id]`
  unfoldable pub run_or_zero : Option (Run F) → Run F
  unfolding zero_run
  run_or_zero none = zero_run
  run_or_zero (some run) = run
