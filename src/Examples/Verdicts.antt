-- ===== src/Examples/Verdicts.antt =====
-- The verdicts of internal/core on small inputs, over whole numbers in place of floats.
use load_observatory.Prelude.{
  ℤ, pos, ◌+ℤ◌, times_ℤ, ◌≡◌, refl, ◌||◌, if◌then◌else◌, ◌&&◌, List, [], ◌∷◌, Option, none, some,
  arith,
}
use load_observatory.Prelude.Floats.{whole}
use load_observatory.Core.Types.{MonitoringSample, Metric}
use load_observatory.Core.Server.{ServerConfig}
use load_observatory.Core.Saturation.{assess_saturation, assess_run_validity}
use load_observatory.Core.Saturation.Series.{IsOrdered, any_above}
use load_observatory.Core.Saturation.Judged.{
  state_of, is_silent, is_queueing, assess_saturation-state,
}
use load_observatory.Core.Saturation.Trusted.{
  is_faulty, is_slowed, is_cached_wrongly, Settles, assess_run_validity-Settles,
}
use load_observatory.Core.Provenance.{
  Field, value, is_blank, provenance_fields, provenance_conflicts, provenance_gaps,
  effective_server_config,
}
use load_observatory.Core.Provenance.Values.{keep, none_affects}
use load_observatory.Core.Provenance.Merged.{
  IsReported, effective_server_config-Settled, provenance_gaps-Both,
}
use load_observatory.Examples.Inputs.{no_server, vu_config}

whole-IsOrdered : IsOrdered whole
whole-IsOrdered = record {
  irreflexive = λ a. ground arith;
  transitive = λ a b c h k. ground arith;
  total = λ a b c n h k. ground arith;
  above_number = λ a b h. ground arith;
  zero_number = refl;
}

abbrev metrics_at : ℤ → Metric → Option ℤ
metrics_at waiting Metric.requests_waiting = some waiting
metrics_at waiting Metric.preemption_rate = some (pos 2)
metrics_at waiting Metric.kv_cache_usage = some (pos 1)
metrics_at waiting Metric.queue_time_p95_millis = some (pos 40)
metrics_at waiting Metric.sm_clock_mhz = some (pos 1000 +ℤ times_ℤ (pos 100) waiting)
metrics_at waiting _ = none

abbrev sample_at : ℤ → MonitoringSample ℤ
sample_at waiting = record {
  at_second = pos 1;
  status = "ok";
  backend = "";
  message = "";
  metrics = metrics_at waiting;
}

abbrev samples : List (MonitoringSample ℤ)
samples = sample_at (pos 3) ∷ sample_at (pos 0) ∷ sample_at (pos 5) ∷ []

assess_saturation-state_example :
    (assess_saturation samples (vu_config 10)).state
    ≡ state_of (is_silent samples) (is_queueing samples) (any_above Metric.preemption_rate samples)
assess_saturation-state_example = assess_saturation-state whole-IsOrdered samples (vu_config 10)

assess_run_validity-Settles_example :
    Settles
      (is_faulty samples || is_slowed samples || is_cached_wrongly samples (vu_config 10))
      (assess_run_validity samples (vu_config 10))
assess_run_validity-Settles_example =
    assess_run_validity-Settles whole-IsOrdered refl samples (vu_config 10)

-- The operator entered a model and a limit on sequences; the server reports another limit.
abbrev entered : ServerConfig ℤ
entered = record no_server { model = "m"; max_num_seqs = pos 64 }

abbrev detected : ServerConfig ℤ
detected = record no_server { version = "0.9"; max_num_seqs = pos 256 }

detected-IsReported : IsReported detected
detected-IsReported = record {
  seqs = omega arith;
  batched = omega arith;
  memory = refl;
  block = omega arith;
  parallel = omega arith;
}

effective_server_config-Settled_example :
    let merged = effective_server_config entered detected in
    ((field : Field)
      → value field merged
        ≡ (if is_blank (value field detected) then value field entered else value field detected))
    × (provenance_conflicts entered merged ≡ provenance_conflicts entered detected)
    × (provenance_conflicts detected merged ≡ [])
effective_server_config-Settled_example =
    effective_server_config-Settled entered detected detected-IsReported

provenance_gaps-Both_example :
    let both =
      keep (λ f. is_blank (value f entered) && is_blank (value f detected)) provenance_fields in
    provenance_gaps (effective_server_config entered detected) ≡ (both, none_affects both)
provenance_gaps-Both_example = provenance_gaps-Both entered detected detected-IsReported
