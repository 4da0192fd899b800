-- ===== src/Controller/Sampling.antt =====
-- internal/controller/server.go: sampleServerMetrics, which samples for every running run each second.
use load_observatory.Prelude.{ℕ, ℤ, if◌then◌else◌, List, [], ◌∷◌}
use load_observatory.Prelude.Floats.{Floats}
use load_observatory.Core.Types.{MonitoringSample}
use load_observatory.Core.Server.{ServerConfig, is_zero_server}
use load_observatory.Store.{MemoryStore}
use load_observatory.Store.Records.{active_run_ids, add_monitoring, set_detected_server}

module _ {F : Type 0} ⦃fl : Floats F⦄ where
  -- The body of the loop over the running runs.
  unfoldable pub sample_run :
      ℤ → MonitoringSample F → ServerConfig F → ℕ → MemoryStore F → MemoryStore F
  sample_run now sample detected id s =
      let sampled = add_monitoring now s id sample in
      if is_zero_server detected then sampled else set_detected_server sampled id detected

  unfoldable pub sample_runs :
      ℤ → MonitoringSample F → ServerConfig F → List ℕ → MemoryStore F → MemoryStore F
  sample_runs now sample detected [] s = s
  sample_runs now sample detected (id ∷ rest) s =
      sample_runs now sample detected rest (sample_run now sample detected id s)

  -- One tick. The order of the runs does not show in what is stored of each.
  unfoldable pub sample_server_metrics :
      ℤ → MonitoringSample F → ServerConfig F → MemoryStore F → MemoryStore F
  sample_server_metrics now sample detected s =
      sample_runs now sample detected (active_run_ids s.runs) s
