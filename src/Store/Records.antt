-- ===== src/Store/Records.antt =====
-- internal/store/store.go: the remaining methods over targets, progress, monitoring and counts.
use load_observatory.Prelude.{
  ℕ, suc, ℤ, pos, ltb_ℤ, leb, ◌-ℤ◌, ◌==◌, if◌then◌else◌, Bool, true, false, ◌&&◌, List, [], ◌∷◌,
  ◌++◌, none, some, length,
}
use load_observatory.Prelude.Floats.{Floats}
use load_observatory.Prelude.Map.{lookup, insert, delete}
use load_observatory.Core.Types.{Run, RunProgress, Status, running, MonitoringSample, Shard}
use load_observatory.Core.Server.{ServerConfig, is_zero_server}
use load_observatory.Store.{MemoryStore, is_active}

pub data DeleteTargetResult : Type 0 where
  target_deleted target_not_found target_in_use : DeleteTargetResult

abbrev pub is_running : Status → Bool
is_running running = true
is_running _ = false

-- `core.MaxDurationSeconds + 900`
unfoldable pub max_monitoring_samples : ℕ
max_monitoring_samples = 4500

module _ {F : Type 0} where
  -- Whether an active run uses the target: the loop of DeleteTarget, whose order does not matter.
  unfoldable pub in_use : ℕ → List (ℕ × Run F) → Bool
  in_use id [] = false
  in_use id ((key, run) ∷ rest) =
      if (run.config.target_id == id) && is_active run.status then true else in_use id rest

  unfoldable pub delete_target : MemoryStore F → ℕ → MemoryStore F × DeleteTargetResult
  delete_target s id = elim (lookup id s.targets) [
    | none ↦ (s, target_not_found)
    | some target ↦
        if in_use id s.runs
        then (s, target_in_use)
        else (record s { targets = delete id s.targets }, target_deleted)
  ]

  unfoldable pub set_shard_progress : MemoryStore F → ℕ → RunProgress F → MemoryStore F × Bool
  set_shard_progress s shard_id progress = elim (lookup shard_id s.shards) [
    | none ↦ (s, false)
    | some shard ↦ (
      record s { progress = insert shard_id (record progress { shard_id = shard_id }) s.progress },
      true,
    )
  ]

  -- The progress of the shards of the run is deleted, in any order.
  unfoldable pub clear_run_progress :
      ℕ → List (ℕ × Shard) → List (ℕ × RunProgress F) → List (ℕ × RunProgress F)
  clear_run_progress run_id [] progress = progress
  clear_run_progress run_id ((shard_id, shard) ∷ rest) progress =
      clear_run_progress run_id rest
        (if shard.run_id == run_id then delete shard_id progress else progress)

  -- Health's counts. The first one, `queued`, counts running runs too.
  unfoldable pub count_active : List (ℕ × Run F) → ℕ
  count_active [] = 0
  count_active ((key, run) ∷ rest) =
      let more = count_active rest in if is_active run.status then suc more else more

  unfoldable pub count_running : List (ℕ × Run F) → ℕ
  count_running [] = 0
  count_running ((key, run) ∷ rest) =
      let more = count_running rest in if is_running run.status then suc more else more

  unfoldable pub add_monitoring : ℤ → MemoryStore F → ℕ → MonitoringSample F → MemoryStore F
  add_monitoring now s id sample = elim (lookup id s.runs) [
    | none ↦ s
    | some run ↦
        let stamped =
          if ltb_ℤ (pos 0) run.started_unix
          then record sample { at_second = now -ℤ run.started_unix }
          else sample in
        if leb max_monitoring_samples (length run.monitoring) then s else record s {
          runs = insert id (record run { monitoring = run.monitoring ++ (stamped ∷ []) }) s.runs;
        }
  ]

  -- ActiveRunIDs before it is sorted.
  unfoldable pub active_run_ids : List (ℕ × Run F) → List ℕ
  active_run_ids [] = []
  active_run_ids ((id, run) ∷ rest) =
      if is_running run.status then id ∷ active_run_ids rest else active_run_ids rest

module _ {F : Type 0} ⦃fl : Floats F⦄ where
  -- Only the first report of a run is kept.
  unfoldable pub set_detected_server : MemoryStore F → ℕ → ServerConfig F → MemoryStore F
  set_detected_server s id detected = elim (lookup id s.runs) [
    | none ↦ s
    | some run ↦
        if is_zero_server run.detected_server
        then record s { runs = insert id (record run { detected_server = detected }) s.runs }
        else s
  ]
