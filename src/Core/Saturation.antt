-- ===== src/Core/Saturation.antt =====
-- internal/core/saturation.go: what the server's samples say about a run. A headline or a reason is the
-- constructor that names its text, with the numbers that the text shows; Detail is fixed by the
-- headline and is left out.
pub mod Series
pub mod Values
pub mod Judged
pub mod Trusted
pub mod Attributed
use load_observatory.Prelude.{
  ℕ, zero, suc, ℤ, pos, ltb_ℤ, eqb_ℤ, leb, ltb, ◌==◌, if◌then◌else◌, Bool, true, false, ◌&&◌, ◌||◌,
  not, List, [], ◌∷◌, ◌++◌, Option, none, some,
}
use load_observatory.Prelude.Floats.{Floats}
use load_observatory.Core.Types.{MonitoringSample, Metric, RunConfig, RunResult, CachePolicy}

-- `series`
pub record Samples (F : Type 0) : Type 0 where
  pub count : ℕ
  pub sum : F
  pub peak : F
  pub first : F
  pub last : F
  pub non_zero : ℕ
  pub has_first : Bool

pub data SaturationState : Type 0 where
  unknown headroom saturated config_limited : SaturationState

pub data Headline (F : Type 0) : Type 0 where
  no_metrics : Headline F
  server_saturated : F → F → Headline F
  at_max_num_seqs : ℤ → Headline F
  queue_without_preemption : F → Headline F
  room_left : F → Headline F

pub record SaturationVerdict (F : Type 0) : Type 0 where
  pub state : SaturationState
  pub headline : Headline F
  pub avg_waiting : F
  pub peak_waiting : F
  pub avg_running : F
  pub peak_running : F
  pub avg_kv_cache_usage : F
  pub peak_kv_cache_usage : F
  pub preemption_rate : F
  pub samples : ℕ

pub data Doubt (F : Type 0) : Type 0 where
  xid_error : F → Doubt F
  power_limited thermally_limited corrupted_output : Doubt F
  clock_dropped cache_not_bypassed cache_not_used : F → Doubt F

pub record RunValidity (F : Type 0) : Type 0 where
  pub trustworthy : Bool
  pub reasons : List (Doubt F)

pub data Attribution : Type 0 where
  unknown server_bound client_or_network_bound metrics_not_this_run : Attribution

pub record LatencyAttribution (F : Type 0) : Type 0 where
  pub available : Bool
  pub verdict : Attribution
  pub client_ttft_millis : ℤ
  pub server_queue_millis : F
  pub server_prefill_millis : F
  pub accounted_millis : F
  pub unaccounted_millis : F
  pub unaccounted_percent : F

module _ {F : Type 0} ⦃fl : Floats F⦄ where
  abbrev pub int : ℕ → F
  int n = fl.of_int (pos n)

  -- `newSeries`
  unfoldable pub new_series : Samples F
  new_series = record {
    count = 0;
    sum = int 0;
    peak = int 0;
    first = int 0;
    last = int 0;
    non_zero = 0;
    has_first = false;
  }

  -- `observe` of a value that was collected.
  unfoldable pub observe_value : Samples F → F → Samples F
  observe_value s value = record {
    count = suc s.count;
    sum = fl.plus s.sum value;
    peak = if fl.lt s.peak value then value else s.peak;
    first = if s.has_first then s.first else value;
    last = value;
    non_zero = if fl.lt (int 0) value then suc s.non_zero else s.non_zero;
    has_first = true;
  }

  unfoldable pub observe : Samples F → MonitoringSample F → Metric → Samples F
  observe s sample key = elim (sample.metrics key) [ none ↦ s | some value ↦ observe_value s value ]

  -- The loop over the samples, for one of the series.
  unfoldable pub observe_all : Samples F → Metric → List (MonitoringSample F) → Samples F
  observe_all s key [] = s
  observe_all s key (sample ∷ rest) = observe_all (observe s sample key) key rest

  unfoldable pub series_of : Metric → List (MonitoringSample F) → Samples F
  series_of key samples = observe_all new_series key samples

  unfoldable pub mean : Samples F → F
  mean s = if s.count == 0 then int 0 else fl.over s.sum (int s.count)

  unfoldable pub fraction_active : Samples F → F
  fraction_active s = if s.count == 0 then int 0 else fl.over (int s.non_zero) (int s.count)

  unfoldable pub decline_percent : Samples F → F
  decline_percent s =
      if ltb s.count 3 || fl.le s.peak (int 0)
      then int 0
      else fl.over (fl.times (fl.minus s.peak s.last) (int 100)) s.peak

  unfoldable pub sustained_queue : Samples F → Bool
  sustained_queue waiting =
      ltb 0 waiting.count && fl.le (fl.over (int 1) (int 4)) (fraction_active waiting)

  -- The cases of the switch, in order.
  unfoldable pub judge :
      Samples F → Samples F → Samples F → Samples F → RunConfig F → SaturationState × Headline F
  judge waiting running kv preemptions config =
      let sustained = sustained_queue waiting in
      let seqs = config.server.max_num_seqs in
      if sustained && fl.lt (int 0) preemptions.peak
      then (
        SaturationState.saturated,
        server_saturated (fraction_active waiting) (mean preemptions),
      )
      else if sustained && ltb_ℤ (pos 0) seqs && fl.le (fl.of_int seqs) running.peak
      then (SaturationState.config_limited, at_max_num_seqs seqs)
      else if sustained
      then (SaturationState.config_limited, queue_without_preemption running.peak)
      else (SaturationState.headroom, room_left (mean kv))

  unfoldable pub assess_saturation : List (MonitoringSample F) → RunConfig F → SaturationVerdict F
  assess_saturation samples config =
      let waiting = series_of Metric.requests_waiting samples in
      let running = series_of Metric.requests_running samples in
      let kv = series_of Metric.kv_cache_usage samples in
      let preemptions = series_of Metric.preemption_rate samples in
      if (waiting.count == 0) && (kv.count == 0)
      then record {
        state = SaturationState.unknown;
        headline = no_metrics;
        avg_waiting = int 0;
        peak_waiting = int 0;
        avg_running = int 0;
        peak_running = int 0;
        avg_kv_cache_usage = int 0;
        peak_kv_cache_usage = int 0;
        preemption_rate = int 0;
        samples = 0;
      }
      else record {
        state = (judge waiting running kv preemptions config).0;
        headline = (judge waiting running kv preemptions config).1;
        avg_waiting = mean waiting;
        peak_waiting = waiting.peak;
        avg_running = mean running;
        peak_running = running.peak;
        avg_kv_cache_usage = mean kv;
        peak_kv_cache_usage = kv.peak;
        preemption_rate = mean preemptions;
        samples = if leb kv.count waiting.count then waiting.count else kv.count;
      }

  -- `add`, if the test holds.
  unfoldable pub add_if : Bool → Doubt F → RunValidity F → RunValidity F
  add_if true reason validity = record {
    trustworthy = false;
    reasons = validity.reasons ++ (reason ∷ []);
  }
  add_if false reason validity = validity

  -- The switch on the cache policy, for a mean hit rate.
  unfoldable pub cache_mismatch : CachePolicy → F → Bool
  cache_mismatch CachePolicy.bypass hit = fl.lt (fl.over (int 1) (int 2)) hit
  cache_mismatch CachePolicy.reuse hit = fl.lt hit (fl.over (int 1) (int 5))
  cache_mismatch _ hit = false

  unfoldable pub cache_doubt : CachePolicy → F → Doubt F
  cache_doubt CachePolicy.reuse hit = cache_not_used hit
  cache_doubt _ hit = cache_not_bypassed hit

  unfoldable pub assess_run_validity : List (MonitoringSample F) → RunConfig F → RunValidity F
  assess_run_validity samples config =
      let xid = series_of Metric.xid_errors samples in
      let power = series_of Metric.power_violation_rate samples in
      let thermal = series_of Metric.thermal_violation_rate samples in
      let corrupted = series_of Metric.corrupted_requests_rate samples in
      let drop = decline_percent (series_of Metric.sm_clock_mhz samples) in
      let prefix = series_of Metric.prefix_cache_hit_rate samples in
      add_if (ltb 0 prefix.count && cache_mismatch config.cache_policy (mean prefix))
        (cache_doubt config.cache_policy (mean prefix))
        (add_if (fl.le (int 5) drop) (clock_dropped drop) (
          add_if (fl.lt (int 0) corrupted.peak) corrupted_output (
            add_if (fl.lt (int 0) thermal.peak) thermally_limited (
              add_if (fl.lt (int 0) power.peak) power_limited (
                add_if (fl.lt (int 0) xid.peak) (xid_error xid.peak)
                  (record { trustworthy = true; reasons = [] }))))))

  -- The TTFT that the client saw: P95 of its distribution, or the older field.
  unfoldable pub client_ttft : RunResult F → ℤ
  client_ttft result =
      if eqb_ℤ result.ttft.p95_millis (pos 0)
      then result.ttft_p95_millis
      else result.ttft.p95_millis

  -- The two tests at the end.
  unfoldable pub attribute : F → F → F → Attribution
  attribute client accounted percent =
      if fl.lt (fl.times client (fl.over (int 6) (int 5))) accounted
      then metrics_not_this_run
      else if fl.lt (int 30) percent
      then client_or_network_bound
      else server_bound

  unfoldable pub attribute_ttft : RunResult F → List (MonitoringSample F) → LatencyAttribution F
  attribute_ttft result samples =
      let queue = series_of Metric.queue_time_p95_millis samples in
      let prefill = series_of Metric.prefill_time_p95_millis samples in
      let client = client_ttft result in
      if eqb_ℤ client (pos 0) || ((queue.count == 0) && (prefill.count == 0))
      then record {
        available = false;
        verdict = Attribution.unknown;
        client_ttft_millis = pos 0;
        server_queue_millis = int 0;
        server_prefill_millis = int 0;
        accounted_millis = int 0;
        unaccounted_millis = int 0;
        unaccounted_percent = int 0;
      }
      else let accounted = fl.plus (mean queue) (mean prefill) in
        let outside = fl.minus (fl.of_int client) accounted in
        let unaccounted = if fl.lt outside (int 0) then int 0 else outside in
        let percent = fl.over (fl.times unaccounted (int 100)) (fl.of_int client) in
        record {
          available = true;
          verdict = attribute (fl.of_int client) accounted percent;
          client_ttft_millis = client;
          server_queue_millis = mean queue;
          server_prefill_millis = mean prefill;
          accounted_millis = accounted;
          unaccounted_millis = unaccounted;
          unaccounted_percent = percent;
        }
