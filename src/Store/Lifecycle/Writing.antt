-- ===== src/Store/Lifecycle/Writing.antt =====
-- The methods of MemoryStore (internal/store/store.go) that write one run or nothing: CancelRun,
-- SetRunCreatedBy, CompleteRun, AddMonitoring and DeleteTarget.
use load_observatory.Prelude.{
  ℕ, ℤ, ◌≡◌, refl, ◌∙◌, true, false, some, arith, inl, inr, Bool-cases, Option-cases, String, leb,
  length, ◌&&◌, ◌==◌,
}
use load_observatory.Prelude.Floats.{Floats}
use load_observatory.Prelude.Map.{lookup, insert, update_all}
use load_observatory.Prelude.Evolution.{
  Evolves-refl, Evolves-update_all, IsKeyed-update_all, IsKeyed-found,
}
use load_observatory.Core.Types.{
  Run, Shard, Status, completed, cancelled, RunResult, MonitoringSample, RunProgress,
}
use load_observatory.Core.Server.{ServerConfig, is_zero_server}
use load_observatory.Store.{
  MemoryStore, is_active, is_queued, is_cancelled, shard_cancelled, cancel_run, set_created_by,
  complete_run,
}
use load_observatory.Store.Records.{
  add_monitoring, delete_target, set_detected_server, set_shard_progress, in_use,
  max_monitoring_samples,
}
use load_observatory.Store.Lifecycle.{
  RunKeeps, RunKeeps-refl, run_id, ShardKeeps, ShardKeeps-refl, shard_id, Advances,
  may_shard_become, may_become, Advances-trans, Advances-refl,
}
use load_observatory.Store.Lifecycle.Queueing.{put_run-Advances}

shard_cancelled-ShardKeeps : (id : ℕ) (shard : Shard) → ShardKeeps shard (shard_cancelled id shard)
unfolding shard_cancelled
shard_cancelled-ShardKeeps id shard =
    elim (Bool-cases ((shard.run_id == id) && is_queued shard.status)) [
      | inl q ↦ rw q record {
        moves = queued_moves shard.status;
        same_id = refl;
        same_run = refl;
        same_index = refl;
      }
      | inr q ↦ rw q (ShardKeeps-refl shard)
    ]
  where
    queued_moves : (x : Status) → may_shard_become x cancelled ≡ true
    queued_moves x = ground arith

pub completed-moves : (x : Status) → is_cancelled x ≡ false → may_become x completed ≡ true
completed-moves x h = ground arith

module _ {F : Type 0} where
  -- The state's other fields do not matter.
  pub elsewhere-Advances :
      (s t : MemoryStore F)
      → t.next_id ≡ s.next_id
      → t.runs ≡ s.runs
      → t.shards ≡ s.shards
      → Advances s t
  elsewhere-Advances s t e f g w = (
    record { runs_keyed = rw (e, f) w.runs_keyed; shards_keyed = rw (e, g) w.shards_keyed },
    record {
      counts_up = omega arith;
      runs_evolve = rw f (Evolves-refl RunKeeps RunKeeps-refl s.runs);
      shards_evolve = rw g (Evolves-refl ShardKeeps ShardKeeps-refl s.shards);
    },
  )

  pub write_run-Advances :
      (s : MemoryStore F) (k : ℕ) (run run' : Run F)
      → lookup k s.runs ≡ some run
      → RunKeeps run run'
      → Advances s (record s { runs = insert k run' s.runs })
  unfolding run_id
  write_run-Advances s k run run' e keeps w =
      let (same, bound) = IsKeyed-found run_id s.next_id k s.runs run w.runs_keyed e in
      put_run-Advances s k run' (keeps.same_id ∙ same) bound (λ _. rw e keeps) w

  cancel_shards-Advances :
      (s : MemoryStore F) (id : ℕ)
      → Advances s (record s { shards = update_all (shard_cancelled id) s.shards })
  cancel_shards-Advances s id w = (
    record {
      runs_keyed = w.runs_keyed;
      shards_keyed =
          IsKeyed-update_all shard_id s.next_id (shard_cancelled id) s.shards
            (λ v. (shard_cancelled-ShardKeeps id v).same_id) w.shards_keyed;
    },
    record {
      counts_up = omega arith;
      runs_evolve = Evolves-refl RunKeeps RunKeeps-refl s.runs;
      shards_evolve =
          Evolves-update_all ShardKeeps (shard_cancelled id) (shard_cancelled-ShardKeeps id)
            s.shards;
    },
  )

  pub cancel_run-Advances : (s : MemoryStore F) (id : ℕ) → Advances s (cancel_run s id).0
  unfolding cancel_run
  cancel_run-Advances s id = elim (Option-cases (lookup id s.runs)) [
    | inl missing ↦ rw (missing, cancel_run) (Advances-refl s)
    | inr (run, found) ↦
        rw (found, cancel_run)
          (elim (Bool-cases (is_active run.status)) [
            | inl active ↦ rw active (
                let keeps : RunKeeps run (record run { status = cancelled }) = record {
                  moves = ground arith;
                  same_id = refl;
                  same_config = refl;
                } in
                let t = record s { runs = insert id (record run { status = cancelled }) s.runs } in
                Advances-trans s t _ (write_run-Advances s id run _ found keeps)
                  (cancel_shards-Advances t id))
            | inr over ↦ rw over (Advances-refl s)
          ])
  ]

  pub set_created_by-Advances :
      (s : MemoryStore F) (id : ℕ) (user : String) → Advances s (set_created_by s id user)
  unfolding set_created_by
  set_created_by-Advances s id user = elim (Option-cases (lookup id s.runs)) [
    | inl missing ↦ rw (missing, set_created_by) (Advances-refl s)
    | inr (run, found) ↦
        rw (found, set_created_by)
          (write_run-Advances s id run _ found
            record { moves = (RunKeeps-refl run).moves; same_id = refl; same_config = refl })
  ]

  pub complete_run-Advances :
      (s : MemoryStore F) (id : ℕ) (result : RunResult F) → Advances s (complete_run s id result).0
  unfolding complete_run
  complete_run-Advances s id result = elim (Option-cases (lookup id s.runs)) [
    | inl missing ↦ rw (missing, complete_run) (Advances-refl s)
    | inr (run, found) ↦
        rw (found, complete_run)
          (elim (Bool-cases (is_cancelled run.status)) [
            | inl gone ↦ rw gone (Advances-refl s)
            | inr here ↦ rw here (
                write_run-Advances s id run _ found record {
                  moves = completed-moves run.status here;
                  same_id = refl;
                  same_config = refl;
                })
          ])
  ]

  pub add_monitoring-Advances :
      (now : ℤ) (s : MemoryStore F) (id : ℕ) (sample : MonitoringSample F)
      → Advances s (add_monitoring now s id sample)
  unfolding add_monitoring
  add_monitoring-Advances now s id sample = elim (Option-cases (lookup id s.runs)) [
    | inl missing ↦ rw (missing, add_monitoring) (Advances-refl s)
    | inr (run, found) ↦
        rw (found, add_monitoring)
          (elim (Bool-cases (leb max_monitoring_samples (length run.monitoring))) [
            | inl full ↦ rw full (Advances-refl s)
            | inr room ↦ rw room (
                write_run-Advances s id run _ found
                  record { moves = (RunKeeps-refl run).moves; same_id = refl; same_config = refl })
          ])
  ]

  pub delete_target-Advances : (s : MemoryStore F) (id : ℕ) → Advances s (delete_target s id).0
  unfolding delete_target
  delete_target-Advances s id = elim (Option-cases (lookup id s.targets)) [
    | inl missing ↦ rw (missing, delete_target) (Advances-refl s)
    | inr (target, found) ↦
        rw (found, delete_target)
          (elim (Bool-cases (in_use id s.runs)) [
            | inl used ↦ rw used (Advances-refl s)
            | inr free ↦ rw free (elsewhere-Advances s _ refl refl refl)
          ])
  ]

  pub set_shard_progress-Advances :
      (s : MemoryStore F) (id : ℕ) (progress : RunProgress F)
      → Advances s (set_shard_progress s id progress).0
  unfolding set_shard_progress
  set_shard_progress-Advances s id progress = elim (Option-cases (lookup id s.shards)) [
    | inl missing ↦ rw (missing, set_shard_progress) (Advances-refl s)
    | inr (shard, found) ↦ rw (found, set_shard_progress) (elsewhere-Advances s _ refl refl refl)
  ]

module _ {F : Type 0} ⦃fl : Floats F⦄ where
  pub set_detected_server-Advances :
      (s : MemoryStore F) (id : ℕ) (detected : ServerConfig F)
      → Advances s (set_detected_server s id detected)
  unfolding set_detected_server
  set_detected_server-Advances s id detected = elim (Option-cases (lookup id s.runs)) [
    | inl missing ↦ rw (missing, set_detected_server) (Advances-refl s)
    | inr (run, found) ↦
        rw (found, set_detected_server)
          (elim (Bool-cases (is_zero_server run.detected_server)) [
            | inl unset ↦ rw unset (
                write_run-Advances s id run _ found
                  record { moves = (RunKeeps-refl run).moves; same_id = refl; same_config = refl })
            | inr there ↦ rw there (Advances-refl s)
          ])
  ]
