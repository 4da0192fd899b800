-- ===== src/Controller/Created.antt =====
-- internal/controller/server.go: createRun, accepted and refused.
use load_observatory.Prelude.{
  ℕ, zero, suc, ℤ, pos, ◌≤ℤ◌, ◌≡◌, ◌≤◌, refl, ◌∙◌, ap, Option, none, some, Option-cases, ◌⊎◌, inl,
  inr, String, arith,
}
use load_observatory.Prelude.Floats.{Floats}
use load_observatory.Prelude.Map.{lookup, insert, lookup-insert}
use load_observatory.Core.Types.{RunConfig, Run, queued, MonitoringSample, Target, WorkloadId}
use load_observatory.Core.Validation.{validate_run_config}
use load_observatory.Core.Validation.Limits.{IsAccepted}
use load_observatory.Core.Validation.Accepted.{validate_run_config-IsAccepted}
use load_observatory.Auth.{User}
use load_observatory.Store.{MemoryStore, new_run, shard_count, queue_shards_from, queue_shards}
use load_observatory.Store
use load_observatory.Controller.{Response, answer, of_run, view}
use load_observatory.Controller.Changes.{start_run, create_run}
use load_observatory.Controller.Defaults.{with_defaults, apply_workload_defaults}
use load_observatory.Controller.Sampled.{add_monitoring-run}

abbrev pub name_of : Option User → String
name_of none = ""
name_of (some user) = user.name

module _ {F : Type 0} ⦃fl : Floats F⦄ where
  queue_shards_from-runs :
      (left index id : ℕ) (s : MemoryStore F) → (queue_shards_from left index id s).runs ≡ s.runs
  unfolding queue_shards_from
  queue_shards_from-runs zero index id s = refl
  queue_shards_from-runs (suc left) index id s = queue_shards_from-runs left (suc index) id _

  create_run-lookup :
      (s : MemoryStore F) (config : RunConfig F)
      → let (after, run) = Store.create_run s config in lookup run.id after.runs ≡ some run
  unfolding Store.create_run queue_shards
  create_run-lookup s config =
      let id = suc s.next_id in
      let run = new_run id none config in
      ap (lookup id) (
        queue_shards_from-runs (shard_count run.config) 0 run.id
          (record s { next_id = id; runs = insert id run s.runs }))
      ∙ rw (lookup-insert id id run s.runs) (ground arith)

  set_created_by-lookup :
      (s : MemoryStore F) (id : ℕ) (user : String) (run : Run F)
      → lookup id s.runs ≡ some run
      → lookup id (Store.set_created_by s id user).runs ≡ some (record run { created_by = user })
  unfolding Store.set_created_by
  set_created_by-lookup s id user run there =
      rw (there, Store.set_created_by)
        (rw (lookup-insert id id (record run { created_by = user }) s.runs) (ground arith))

  start_run-id :
      (now : ℤ) (sample : MonitoringSample F) (user : Option User) (s : MemoryStore F)
      (config : RunConfig F)
      → (start_run now sample user s config).1.id ≡ suc s.next_id
  unfolding start_run Store.create_run new_run
  start_run-id now sample none s config = refl
  start_run-id now sample (some user) s config = refl

  -- What is stored of a run that was created from a configuration.
  abbrev pub IsStored : RunConfig F → Option User → MemoryStore F → Run F → Type 0
  IsStored config user s run =
      (stored : Run F) × (lookup run.id s.runs ≡ some stored)
      × (stored.config ≡ record config { workload_id = WorkloadId.of_run run.id })
      × (stored.status ≡ queued)
      × (stored.created_by ≡ name_of user)

  start_run-IsStored :
      (now : ℤ) (sample : MonitoringSample F) (user : Option User) (s : MemoryStore F)
      (config : RunConfig F)
      → let (after, run) = start_run now sample user s config in IsStored config user after run
  unfolding start_run Store.create_run queue_shards Store.set_created_by new_run
  start_run-IsStored now sample none s config =
      let (after, run) = Store.create_run s config in
      let (sampled, there, _, kept, status, creator, _, _) =
        add_monitoring-run now sample after run.id run (create_run-lookup s config) in
      (sampled, there, kept, status, creator)
  start_run-IsStored now sample (some user) s config =
      let (after, run) = Store.create_run s config in
      let owned : Run F = record run { created_by = user.name } in
      let owner : lookup run.id (Store.set_created_by after run.id user.name).runs ≡ some owned =
        set_created_by-lookup after run.id user.name run (create_run-lookup s config) in
      let (sampled, there, _, kept, status, creator, _, _) =
        add_monitoring-run now sample (Store.set_created_by after run.id user.name) run.id owned
          owner in
      (sampled, there, kept, status, creator)

  -- What createRun leaves when it accepts: the target was there, the configuration with its defaults is
  -- an accepted one with a shard at least, and the run is stored under a new id.
  abbrev pub Creates :
      Option User → MemoryStore F → RunConfig F → MemoryStore F × Response F → Type 0
  Creates user s sent (after, response) =
      (target : Target) × (run : Run F) × (lookup sent.target_id s.targets ≡ some target)
      × IsAccepted (with_defaults sent)
      × (pos 1 ≤ℤ (with_defaults sent).shards)
      × (response ≡ answer 201 (of_run (view run)))
      × (run.id ≡ suc s.next_id)
      × IsStored (with_defaults sent) user after run

  -- A refusal changes nothing.
  abbrev pub Refuses : MemoryStore F → MemoryStore F × Response F → Type 0
  Refuses s (after, response) = (400 ≤ response.status) × (after ≡ s)

  with_defaults-shards :
      (sent : RunConfig F)
      → pos 0 ≤ℤ (with_defaults sent).shards
      → pos 1 ≤ℤ (with_defaults sent).shards
  unfolding with_defaults apply_workload_defaults
  with_defaults-shards sent h = ground arith

  -- createRun either refuses the request and leaves the store as it was, or the target is there and the
  -- run is stored under the next id: queued, by the user who is signed in, with the configuration sent
  -- and its defaults, which is within every bound that ValidateRunConfig checks and has a shard
  -- at least.
  pub create_run-Settles :
      (now : ℤ) (sample : MonitoringSample F) (user : Option User) (s : MemoryStore F)
      (sent : RunConfig F)
      → let outcome = create_run now sample user s (some sent) in
        Refuses s outcome ⊎ Creates user s sent outcome
  unfolding create_run
  create_run-Settles now sample user s sent =
      elim (Option-cases (lookup sent.target_id s.targets)) [
        | inl missing ↦ inl (rw (missing, create_run) (omega arith, refl))
        | inr (target, there) ↦ elim (Option-cases (validate_run_config (with_defaults sent))) [
          | inr (e, bad) ↦ inl (rw (there, create_run) (rw bad (omega arith, refl)))
          | inl good ↦
              let accepted = validate_run_config-IsAccepted (with_defaults sent) good in
              let (after, run) = start_run now sample user s (with_defaults sent) in
              inr (
                rw (there, create_run)
                  (rw good (
                    target,
                    run,
                    refl,
                    accepted,
                    with_defaults-shards sent accepted.shards.0,
                    refl,
                    start_run-id now sample user s (with_defaults sent),
                    start_run-IsStored now sample user s (with_defaults sent),
                  )))
        ]
      ]
