-- ===== src/Core/Saturation/Attributed.antt =====
-- AttributeTTFT of internal/core/saturation.go: when it says something, and what it then can say.
use load_observatory.Prelude.{
  pos, eqb_ℤ, ◌==◌, ◌≡◌, refl, Bool, true, false, ◌&&◌, ◌||◌, not, List, arith, Bool-cases, inl,
  inr,
}
use load_observatory.Prelude.Floats.{Floats}
use load_observatory.Core.Types.{MonitoringSample, Metric, RunResult}
use load_observatory.Core.Saturation.{
  Attribution, series_of, client_ttft, attribute, attribute_ttft,
}
use load_observatory.Core.Saturation.Series.{collected, count-series_of}

abbrev pub is_known : Attribution → Bool
is_known Attribution.unknown = false
is_known _ = true

module _ {F : Type 0} ⦃fl : Floats F⦄ where
  -- Whether the client's or the server's side of the latency is missing.
  abbrev pub is_one_sided : RunResult F → List (MonitoringSample F) → Bool
  is_one_sided result samples =
      eqb_ℤ (client_ttft result) (pos 0)
      || ((collected Metric.queue_time_p95_millis samples == 0)
          && (collected Metric.prefill_time_p95_millis samples == 0))

  known-attribute :
      (client accounted percent : F) → is_known (attribute client accounted percent) ≡ true
  unfolding attribute
  known-attribute client accounted percent = ground arith

  -- The attribution is available, and its verdict is one of the three known ones, exactly if the client
  -- saw a TTFT and some sample collected the queue or the prefill time.
  attribute_ttft-available :
      (result : RunResult F) (samples : List (MonitoringSample F))
      → ((attribute_ttft result samples).available ≡ not (is_one_sided result samples))
        × (is_known (attribute_ttft result samples).verdict ≡ not (is_one_sided result samples))
  unfolding attribute_ttft
  attribute_ttft-available result samples =
      rw
        (
          ← count-series_of Metric.queue_time_p95_millis samples,
          ← count-series_of Metric.prefill_time_p95_millis samples,
        )
        (elim (Bool-cases (
          eqb_ℤ (client_ttft result) (pos 0)
          || (((series_of Metric.queue_time_p95_millis samples).count == 0)
              && ((series_of Metric.prefill_time_p95_millis samples).count == 0)))) [
                | inl missing ↦ rw (missing, attribute_ttft) (refl, refl)
                | inr there ↦ rw (there, attribute_ttft) (refl, known-attribute _ _ _)
              ])
