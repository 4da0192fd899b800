-- ===== src/Core/Types.antt =====
-- internal/core/types.go: the load configuration, the results and the searches. A Go `int` or `int64`
-- is a ℤ, a `float64` an element of `F`, a string that the code only compares with constants a data
-- type with a constructor for each constant and `other` for the rest. An id that the store mints
-- (`run-%d`, `shard-%d`, `search-%d`, `target-%d`) is its number. JSON tags are left out.
use load_observatory.Prelude.{ℕ, ℤ, String, Bool, List, Option}
use load_observatory.Core.Server.{ServerConfig}

pub data LoadMode : Type 0 where
  vu rps : LoadMode
  other : String → LoadMode

pub data CachePolicy : Type 0 where
  unset mixed reuse bypass : CachePolicy
  other : String → CachePolicy

pub data TargetType : Type 0 where
  web model : TargetType
  other : String → TargetType

-- Every pattern but `poisson` is taken as uniform.
pub data ArrivalPattern : Type 0 where
  unset uniform poisson : ArrivalPattern
  other : String → ArrivalPattern

pub record Target : Type 0 where
  pub id : ℕ
  pub name : String
  pub type : TargetType
  pub url : String
  pub model : String
  pub api_key : String
  pub has_api_key : Bool

pub record LoadStage : Type 0 where
  pub duration_seconds : ℤ
  pub target_load : ℤ

pub record TraceEvent : Type 0 where
  pub timestamp_millis : ℤ
  pub name : String
  pub prompt : String
  pub prompt_tokens : ℤ
  pub max_tokens : ℤ

pub record ScenarioTask : Type 0 where
  pub name : String
  pub prompt : String
  pub weight : ℤ
  pub think_time_millis : ℤ
  pub max_tokens : ℤ
  pub prompt_tokens : ℤ

pub record UserJourney : Type 0 where
  pub name : String
  pub weight : ℤ
  pub agent_workflow : Bool
  pub scenario : List ScenarioTask

-- The nonce that a request carries: `run.ID`, or `run.ID + "-" + shard.ID`.
pub data WorkloadId : Type 0 where
  unset : WorkloadId
  of_run : ℕ → WorkloadId
  of_shard : ℕ → ℕ → WorkloadId

pub record RunConfig (F : Type 0) : Type 0 where
  pub target_id : ℕ
  pub mode : LoadMode
  pub vus : ℤ
  pub rps : ℤ
  pub duration_seconds : ℤ
  pub prompt : String
  pub max_tokens : ℤ
  pub max_error_percent : F
  pub max_p95_millis : ℤ
  pub max_ttft_p95_millis : ℤ
  pub min_output_tokens_per_second : F
  pub cache_policy : CachePolicy
  pub variation_percent : ℤ
  pub workload_id : WorkloadId
  pub shards : ℤ
  pub max_in_flight : ℤ
  pub warmup_requests : ℤ
  pub cooldown_seconds : ℤ
  pub max_tpot_p95_millis : ℤ
  pub min_goodput_percent : F
  pub stages : List LoadStage
  pub scenario : List ScenarioTask
  pub agent_workflow : Bool
  pub journeys : List UserJourney
  pub drain_seconds : ℤ
  pub steady_state_seconds : ℤ
  pub min_completion_percent : F
  pub ignore_eos : Bool
  pub server : ServerConfig F
  pub accumulate_context : Bool
  pub arrival_pattern : ArrivalPattern
  pub output_tokens_stdev : ℤ
  pub prompt_pad_tokens : ℤ
  pub prompt_pad_stdev : ℤ
  pub trace : List TraceEvent
  pub trace_time_scale : F
  pub sessions_per_vu : ℤ

pub record Distribution : Type 0 where
  pub min_millis : ℤ
  pub avg_millis : ℤ
  pub p50_millis : ℤ
  pub p95_millis : ℤ
  pub p99_millis : ℤ
  pub max_millis : ℤ

pub record TokenUsage (F : Type 0) : Type 0 where
  pub prompt : ℤ
  pub completion : ℤ
  pub reasoning : ℤ
  pub output_per_second : F

pub record TimelinePoint : Type 0 where
  pub second : ℤ
  pub requests : ℤ
  pub successes : ℤ
  pub failures : ℤ
  pub p95_millis : ℤ
  pub issued : ℤ
  pub completed : ℤ
  pub cancelled : ℤ
  pub active : ℤ
  pub waiting : ℤ
  pub target_load : ℤ

pub record RunSamples : Type 0 where
  pub latency : List ℤ
  pub ttft : List ℤ
  pub ttfo : List ℤ
  pub itl : List ℤ
  pub tpot : List ℤ
  pub decimated : Bool

pub record ScenarioResult (F : Type 0) : Type 0 where
  pub name : String
  pub issued : ℤ
  pub completed : ℤ
  pub failures : ℤ
  pub cancelled : ℤ
  pub completion_percent : F
  pub latency : Distribution
  pub ttft : Distribution
  pub output_tokens : ℤ
  pub output_per_second : F
  pub input_tokens : ℤ
  pub samples : Option RunSamples

-- `StatusCounts` is a list of a status code and its count.
pub record RunResult (F : Type 0) : Type 0 where
  pub successes : ℤ
  pub failures : ℤ
  pub p95_millis : ℤ
  pub ttft_p95_millis : ℤ
  pub total : ℤ
  pub throughput_rps : F
  pub latency : Distribution
  pub ttft : Distribution
  pub ttfo : Distribution
  pub itl : Distribution
  pub tpot : Distribution
  pub tokens : TokenUsage F
  pub goodput_percent : F
  pub dropped_arrivals : ℤ
  pub stopped_by_guardrail : Bool
  pub guardrail_message : String
  pub agent_sessions : ℤ
  pub completed_sessions : ℤ
  pub session_duration : Distribution
  pub status_counts : List (ℕ × ℤ)
  pub errors : List String
  pub timeline : List TimelinePoint
  pub latency_scope : String
  pub issued : ℤ
  pub completed : ℤ
  pub cancelled : ℤ
  pub http_failures : ℤ
  pub transport_errors : ℤ
  pub completion_percent : F
  pub steady_seconds : ℤ
  pub steady_samples : ℤ
  pub scenarios : List (ScenarioResult F)
  pub drained_seconds : ℤ
  pub samples : Option RunSamples
  pub missing_usage_responses : ℤ
  pub content_chunks : ℤ
  pub output_length_pinned : Bool
  pub samples_decimated : Bool
  pub context_accumulated : Bool
  pub generator_delay : Distribution
  pub latency_from_intended_arrival : Bool
  pub backoff_events : ℤ
  pub backoff_seconds : F

-- The keys of `MonitoringSample.Metrics` that the verdicts read.
pub data Metric : Type 0 where
  requests_running requests_waiting kv_cache_usage preemption_rate : Metric
  queue_time_p95_millis prefill_time_p95_millis prefix_cache_hit_rate : Metric
  corrupted_requests_rate gpu_utilization gpu_memory_used dram_active tensor_active : Metric
  sm_active sm_occupancy sm_clock_mhz power_violation_rate thermal_violation_rate : Metric
  xid_errors cpu_utilization memory_used : Metric

-- `metrics` is the lookup of the Go map: `none` is a metric that was not collected.
pub record MonitoringSample (F : Type 0) : Type 0 where
  pub at_second : ℤ
  pub status : String
  pub backend : String
  pub message : String
  pub metrics : Metric → Option F

pub record RunProgress (F : Type 0) : Type 0 where
  pub shard_id : ℕ
  pub phase : String
  pub second : ℤ
  pub target_load : ℤ
  pub active : ℤ
  pub waiting : ℤ
  pub issued : ℤ
  pub completed : ℤ
  pub failures : ℤ
  pub cancelled : ℤ
  pub dropped : ℤ
  pub completed_rps : F

-- The status strings of runs and of shards; `unset` is the empty string of a zero value.
pub data Status : Type 0 where
  unset queued running completed cancelled : Status

pub record Run (F : Type 0) : Type 0 where
  pub id : ℕ
  pub status : Status
  pub search_id : Option ℕ
  pub config : RunConfig F
  pub result : RunResult F
  pub monitoring : List (MonitoringSample F)
  pub progress : List (RunProgress F)
  pub started_unix : ℤ
  pub detected_server : ServerConfig F
  pub created_by : String

pub data AutoSearchStatus : Type 0 where
  running completed cancelled : AutoSearchStatus

pub record AutoSearchConfig (F : Type 0) : Type 0 where
  pub run : RunConfig F
  pub start_load : ℤ
  pub max_load : ℤ

-- The texts of `InstabilityMessage`: a constructor for each format, over the values that it prints.
pub data Instability (F : Type 0) : Type 0 where
  no_completed_requests unmet : Instability F
  too_few_finished : F → ℤ → F → Instability F
  error_rate : F → F → Instability F
  latency ttft : ℤ → ℤ → Instability F
  output_rate : F → F → Instability F

-- The texts that `finishSearch` and `CancelSearch` leave in `Message`.
pub data SearchMessage (F : Type 0) : Type 0 where
  none_met : Option (Instability F) → SearchMessage F
  met_to_max : ℤ → SearchMessage F
  knee_found : ℤ → ℤ → SearchMessage F
  cancelled_by_user : SearchMessage F

-- One measured point on the throughput-latency curve.
pub record AutoSearchStep (F : Type 0) : Type 0 where
  pub load : ℤ
  pub run_id : ℕ
  pub stable : Bool
  pub reason : Option (Instability F)
  pub throughput_rps : F
  pub output_tokens_per_sec : F
  pub ttft_p95_millis : ℤ
  pub tpot_p95_millis : ℤ
  pub latency_p95_millis : ℤ
  pub goodput_percent : F
  pub completion_percent : F

pub record AutoSearch (F : Type 0) : Type 0 where
  pub id : ℕ
  pub status : AutoSearchStatus
  pub config : AutoSearchConfig F
  pub run_ids : List ℕ
  pub next_load : ℤ
  pub stable_load : ℤ
  pub failed_load : ℤ
  pub recommended_load : ℤ
  pub message : Option (SearchMessage F)
  pub ladder : List ℕ
  pub steps : List (AutoSearchStep F)
  pub provision_load : ℤ

pub record Shard : Type 0 where
  pub id : ℕ
  pub run_id : ℕ
  pub status : Status
  pub index : ℤ

pub record Assignment (F : Type 0) : Type 0 where
  pub run : Run F
  pub target : Target
  pub shard : Shard
