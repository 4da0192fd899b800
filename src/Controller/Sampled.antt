-- ===== src/Controller/Sampled.antt =====
-- internal/store/store.go: what a monitoring sample leaves of a run.
use load_observatory.Prelude.{
  ℕ, ℤ, pos, ltb_ℤ, if◌then◌else◌, ◌≡◌, refl, ap, [], ◌∷◌, ◌++◌, some, Bool-cases, leb, length,
  ◌-ℤ◌, inl, inr, arith,
}
use load_observatory.Prelude.Floats.{Floats}
use load_observatory.Prelude.Map.{lookup, insert, lookup-insert}
use load_observatory.Core.Types.{Run, MonitoringSample}
use load_observatory.Store.{MemoryStore}
use load_observatory.Store.Records

module _ {F : Type 0} ⦃fl : Floats F⦄ where
  -- A monitoring sample leaves the searches alone, and the run under its id.
  pub add_monitoring-run :
      (now : ℤ) (sample : MonitoringSample F) (s : MemoryStore F) (id : ℕ) (run : Run F)
      → lookup id s.runs ≡ some run
      → let after = Records.add_monitoring now s id sample in
        (sampled : Run F) × (lookup id after.runs ≡ some sampled)
        × (sampled.id ≡ run.id)
        × (sampled.config ≡ run.config)
        × (sampled.status ≡ run.status)
        × (sampled.created_by ≡ run.created_by)
        × (after.searches ≡ s.searches)
        × (after.search_run ≡ s.search_run)
  unfolding Records.add_monitoring
  add_monitoring-run now sample s id run there =
      let stamped : MonitoringSample F =
        if ltb_ℤ (pos 0) run.started_unix
        then record sample { at_second = now -ℤ run.started_unix }
        else sample in
      let added : Run F = record run { monitoring = run.monitoring ++ (stamped ∷ []) } in
      elim (Bool-cases (leb Records.max_monitoring_samples (length run.monitoring))) [
        | inl full ↦
            let e : Records.add_monitoring now s id sample ≡ s =
              rw (there, Records.add_monitoring) (rw full refl) in
            (
              run,
              rw e there,
              refl,
              refl,
              refl,
              refl,
              ap (λ (t : MemoryStore F). t.searches) e,
              ap (λ (t : MemoryStore F). t.search_run) e,
            )
        | inr room ↦
            let e : Records.add_monitoring now s id sample
                ≡ record s { runs = insert id added s.runs } =
              rw (there, Records.add_monitoring) (rw room refl) in
            (
              added,
              rw e (rw (lookup-insert id id added s.runs) (ground arith)),
              refl,
              refl,
              refl,
              refl,
              ap (λ (t : MemoryStore F). t.searches) e,
              ap (λ (t : MemoryStore F). t.search_run) e,
            )
      ]
