-- ===== src/Core/Saturation/Judged.antt =====
-- The verdicts of internal/core/saturation.go, described by the samples alone.
use load_observatory.Prelude.{
  pos, ltb_ℤ, ltb, ◌==◌, ◌≡◌, refl, Bool, true, false, ◌&&◌, List, Bool-cases, inl, inr,
  if◌then◌else◌,
}
use load_observatory.Prelude.Floats.{Floats}
use load_observatory.Core.Types.{MonitoringSample, Metric, RunConfig}
use load_observatory.Core.Saturation.{
  Samples, SaturationState, int, series_of, fraction_active, sustained_queue, judge,
  assess_saturation,
}
use load_observatory.Core.Saturation.Series.{
  IsOrdered, collected, active, any_above, count-series_of, non_zero-series_of, peak-series_of,
}

-- The state that the samples call for.
abbrev pub state_of : Bool → Bool → Bool → SaturationState
state_of silent queueing preempting =
    if silent
    then SaturationState.unknown
    else if queueing
    then (if preempting then SaturationState.saturated else SaturationState.config_limited)
    else SaturationState.headroom

module _ {F : Type 0} ⦃fl : Floats F⦄ where
  -- Some sample collected the queue, and at least a quarter of these had someone waiting.
  abbrev pub is_queueing : List (MonitoringSample F) → Bool
  is_queueing samples =
      let n = collected Metric.requests_waiting samples in
      ltb 0 n
      && fl.le (fl.over (int 1) (int 4))
          (if n == 0 then int 0 else fl.over (int (active Metric.requests_waiting samples)) (int n))

  abbrev pub is_silent : List (MonitoringSample F) → Bool
  is_silent samples =
      (collected Metric.requests_waiting samples == 0)
      && (collected Metric.kv_cache_usage samples == 0)

  sustained_queue_lem :
      (samples : List (MonitoringSample F))
      → sustained_queue (series_of Metric.requests_waiting samples) ≡ is_queueing samples
  unfolding sustained_queue fraction_active
  sustained_queue_lem samples =
      rw
        (
          count-series_of Metric.requests_waiting samples,
          non_zero-series_of Metric.requests_waiting samples,
        )
        refl

  state-judge :
      (waiting running kv preemptions : Samples F) (config : RunConfig F)
      → (judge waiting running kv preemptions config).0
        ≡ state_of false (sustained_queue waiting) (fl.lt (int 0) preemptions.peak)
  unfolding judge
  state-judge waiting running kv preemptions config = elim (Bool-cases (sustained_queue waiting)) [
    | inr calm ↦ rw (calm, judge) refl
    | inl queueing ↦ elim (Bool-cases (fl.lt (int 0) preemptions.peak)) [
      | inl preempting ↦ rw (queueing, preempting, judge) refl
      | inr fine ↦
          elim (Bool-cases (
            ltb_ℤ (pos 0) config.server.max_num_seqs
            && fl.le (fl.of_int config.server.max_num_seqs) running.peak)) [
              | inl pinned ↦ rw (queueing, fine, pinned, judge) refl
              | inr free ↦ rw (queueing, fine, free, judge) refl
            ]
    ]
  ]

  state-assess_saturation :
      (samples : List (MonitoringSample F)) (config : RunConfig F)
      → let waiting = series_of Metric.requests_waiting samples in
        let kv = series_of Metric.kv_cache_usage samples in
        (assess_saturation samples config).state ≡ (
          if (waiting.count == 0) && (kv.count == 0)
          then SaturationState.unknown
          else (judge waiting
              (series_of Metric.requests_running samples)
              kv
              (series_of Metric.preemption_rate samples)
              config).0)
  unfolding assess_saturation
  state-assess_saturation samples config =
      elim (Bool-cases (
        ((series_of Metric.requests_waiting samples).count == 0)
        && ((series_of Metric.kv_cache_usage samples).count == 0))) [
          | inl silent ↦ rw (silent, assess_saturation) refl
          | inr heard ↦ rw (heard, assess_saturation) refl
        ]

  -- If floats compare as they do: the state is unknown exactly if no sample collected the queue or the
  -- KV cache. Else the queue is sustained if at least a quarter of the samples that collected it had
  -- someone waiting: with a sustained queue the state is saturated if some sample saw a preemption, and
  -- config_limited if none did; without one it is headroom, also if there were preemptions. The values of
  -- the KV cache, the limit on sequences and the number running never change it.
  pub assess_saturation-state :
      IsOrdered fl
      → (samples : List (MonitoringSample F)) (config : RunConfig F)
      → (assess_saturation samples config).state
        ≡ state_of
            (is_silent samples)
            (is_queueing samples)
            (any_above Metric.preemption_rate samples)
  unfolding assess_saturation
  assess_saturation-state laws samples config =
      rw
        (
          state-assess_saturation samples config,
          state-judge (series_of Metric.requests_waiting samples)
              (series_of Metric.requests_running samples) (series_of Metric.kv_cache_usage samples)
              (series_of Metric.preemption_rate samples) config,
          sustained_queue_lem samples,
          peak-series_of laws Metric.preemption_rate samples,
          count-series_of Metric.requests_waiting samples,
          count-series_of Metric.kv_cache_usage samples,
        )
        (silenced (is_silent samples) (is_queueing samples)
          (any_above Metric.preemption_rate samples))
    where
      silenced :
          (silent queueing preempting : Bool)
          → (if silent then SaturationState.unknown else state_of false queueing preempting)
            ≡ state_of silent queueing preempting
      silenced true queueing preempting = refl
      silenced false queueing preempting = refl
