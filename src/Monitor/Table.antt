-- ===== src/Monitor/Table.antt =====
-- internal/monitor/monitor.go: the table of the metrics, each with the expressions that may yield it.
use load_observatory.Prelude.{ℕ, List, [], ◌∷◌, String}
use load_observatory.Core.Types.{Metric}

pub record Candidate : Type 0 where
  pub backend : String
  pub expression : String

pub record MetricQuery : Type 0 where
  pub key : Metric
  pub candidates : List Candidate

-- The number that stands for a metric's name.
unfoldable pub key_of : Metric → ℕ
key_of Metric.requests_running = 0
key_of Metric.requests_waiting = 1
key_of Metric.kv_cache_usage = 2
key_of Metric.preemption_rate = 3
key_of Metric.queue_time_p95_millis = 4
key_of Metric.prefill_time_p95_millis = 5
key_of Metric.prefix_cache_hit_rate = 6
key_of Metric.corrupted_requests_rate = 7
key_of Metric.gpu_utilization = 8
key_of Metric.gpu_memory_used = 9
key_of Metric.dram_active = 10
key_of Metric.tensor_active = 11
key_of Metric.sm_active = 12
key_of Metric.sm_occupancy = 13
key_of Metric.sm_clock_mhz = 14
key_of Metric.power_violation_rate = 15
key_of Metric.thermal_violation_rate = 16
key_of Metric.xid_errors = 17
key_of Metric.cpu_utilization = 18
key_of Metric.memory_used = 19

option : String → String → Candidate
option backend expression = record { backend = backend; expression = expression }

ask_for : Metric → List Candidate → MetricQuery
ask_for key candidates = record { key = key; candidates = candidates }

unfoldable pub queries : List MetricQuery
unfolding ask_for option
queries =
    (ask_for Metric.requests_running (
      option "vllm" "sum(vllm:num_requests_running)"
      ∷ option "sglang" "sum(sglang:num_running_reqs)"
      ∷ option "sglang" "sum(sglang_num_running_reqs)"
      ∷ option "tgi" "sum(tgi_batch_current_size)"
      ∷ []))
    ∷ (ask_for Metric.requests_waiting (
        option "vllm" "sum(vllm:num_requests_waiting)"
        ∷ option "sglang" "sum(sglang:num_queue_reqs)"
        ∷ option "sglang" "sum(sglang_num_queue_reqs)"
        ∷ option "tgi" "sum(tgi_queue_size)"
        ∷ []))
    ∷ (ask_for Metric.kv_cache_usage (
        option "vllm" "avg(vllm:kv_cache_usage_perc)"
        ∷ option "vllm" "avg(vllm:gpu_cache_usage_perc)"
        ∷ option "sglang" "avg(sglang:token_usage)"
        ∷ option "sglang" "avg(sglang_token_usage)"
        ∷ []))
    ∷ (ask_for Metric.preemption_rate
        (option "vllm" "sum(rate(vllm:num_preemptions_total[1m]))" ∷ []))
    ∷ (ask_for Metric.queue_time_p95_millis (
        option "vllm"
          "histogram_quantile(0.95, sum(rate(vllm:request_queue_time_seconds_bucket[1m])) by (le)) * 1000"
        ∷ option "tgi"
            "histogram_quantile(0.95, sum(rate(tgi_request_queue_duration_bucket[1m])) by (le)) * 1000"
        ∷ []))
    ∷ (ask_for Metric.prefill_time_p95_millis (
        option "vllm"
          "histogram_quantile(0.95, sum(rate(vllm:request_prefill_time_seconds_bucket[1m])) by (le)) * 1000"
        ∷ []))
    ∷ (ask_for Metric.prefix_cache_hit_rate (
        option "vllm"
          "sum(rate(vllm:prefix_cache_hits_total[2m])) / sum(rate(vllm:prefix_cache_queries_total[2m]))"
        ∷ option "sglang" "avg(sglang:cache_hit_rate)"
        ∷ option "sglang" "avg(sglang_cache_hit_rate)"
        ∷ []))
    ∷ (ask_for Metric.corrupted_requests_rate
        (option "vllm" "sum(rate(vllm:corrupted_requests_total[1m]))" ∷ []))
    ∷ (ask_for Metric.gpu_utilization (option "" "avg(DCGM_FI_DEV_GPU_UTIL)" ∷ []))
    ∷ (ask_for Metric.gpu_memory_used (
        option "" "100 * sum(DCGM_FI_DEV_FB_USED) / sum(DCGM_FI_DEV_FB_USED + DCGM_FI_DEV_FB_FREE)"
        ∷ []))
    ∷ (ask_for Metric.dram_active (option "" "avg(DCGM_FI_PROF_DRAM_ACTIVE)" ∷ []))
    ∷ (ask_for Metric.tensor_active (option "" "avg(DCGM_FI_PROF_PIPE_TENSOR_ACTIVE)" ∷ []))
    ∷ (ask_for Metric.sm_active (option "" "avg(DCGM_FI_PROF_SM_ACTIVE)" ∷ []))
    ∷ (ask_for Metric.sm_occupancy (option "" "avg(DCGM_FI_PROF_SM_OCCUPANCY)" ∷ []))
    ∷ (ask_for Metric.sm_clock_mhz (option "" "avg(DCGM_FI_DEV_SM_CLOCK)" ∷ []))
    ∷ (ask_for Metric.power_violation_rate
        (option "" "sum(rate(DCGM_FI_DEV_POWER_VIOLATION[1m]))" ∷ []))
    ∷ (ask_for Metric.thermal_violation_rate
        (option "" "sum(rate(DCGM_FI_DEV_THERMAL_VIOLATION[1m]))" ∷ []))
    ∷ (ask_for Metric.xid_errors (option "" "max(DCGM_FI_DEV_XID_ERRORS)" ∷ []))
    ∷ (ask_for Metric.cpu_utilization
        (option "" "100 - avg(rate(node_cpu_seconds_total{mode=\"idle\"}[1m])) * 100" ∷ []))
    ∷ (ask_for Metric.memory_used (
        option ""
          "100 * (node_memory_MemTotal_bytes - node_memory_MemAvailable_bytes) / node_memory_MemTotal_bytes"
        ∷ []))
    ∷ []
