-- ===== src/Store/Completion.antt =====
-- internal/store/store.go: CompleteShard and clearShardSamplesLocked.
use load_observatory.Prelude.{
  ℕ, ◌==◌, if◌then◌else◌, Bool, true, false, ◌&&◌, not, List, [], ◌∷◌, Option, none, some,
}
use load_observatory.Prelude.Floats.{Floats}
use load_observatory.Prelude.Map.{lookup, insert}
use load_observatory.Core.Types.{Run, RunResult, ScenarioResult, Status, completed, Shard}
use load_observatory.Store.{MemoryStore, is_cancelled}
use load_observatory.Store.Zero.{zero_result, run_or_zero}
use load_observatory.Store.Merge.{merge_results}
use load_observatory.Store.Records.{clear_run_progress}

abbrev pub is_completed : Status → Bool
is_completed completed = true
is_completed _ = false

-- `for _, item := range s.shards { if item.RunID == run.ID && item.Status != "completed" { return } }`
unfoldable pub all_completed : ℕ → List (ℕ × Shard) → Bool
all_completed run_id [] = true
all_completed run_id ((id, shard) ∷ rest) =
    if (shard.run_id == run_id) && not (is_completed shard.status)
    then false
    else all_completed run_id rest

module _ {F : Type 0} where
  without_samples : List (ScenarioResult F) → List (ScenarioResult F)
  without_samples [] = []
  without_samples (scenario ∷ rest) = record scenario { samples = none } ∷ without_samples rest

  unfoldable pub clear_samples : RunResult F → RunResult F
  unfolding without_samples
  clear_samples result = record result {
    samples = none;
    scenarios = without_samples result.scenarios;
  }

  -- clearShardSamplesLocked, over the shards in any order.
  unfoldable pub clear_shard_samples :
      ℕ → List (ℕ × Shard) → List (ℕ × RunResult F) → List (ℕ × RunResult F)
  clear_shard_samples run_id [] results = results
  clear_shard_samples run_id ((id, shard) ∷ rest) results = clear_shard_samples run_id rest (
      if shard.run_id == run_id
      then elim (lookup id results) [
        | none ↦ results
        | some result ↦ insert id (clear_samples result) results
      ]
      else results)

module _ {F : Type 0} ⦃fl : Floats F⦄ where
  result_or_zero : Option (RunResult F) → RunResult F
  result_or_zero none = zero_result
  result_or_zero (some result) = result

  -- The stored results of the run's shards, in the order of the visit.
  unfoldable pub results_of : ℕ → List ℕ → MemoryStore F → List (RunResult F)
  unfolding result_or_zero
  results_of run_id [] s = []
  results_of run_id (id ∷ rest) s = elim (lookup id s.shards) [
    | none ↦ results_of run_id rest s
    | some shard ↦
        if shard.run_id == run_id
        then result_or_zero (lookup id s.shard_results) ∷ results_of run_id rest s
        else results_of run_id rest s
  ]

  -- The run with the merged result, and the samples and the progress dropped.
  unfoldable pub finish_run : List ℕ → MemoryStore F → Run F → MemoryStore F × Option (Run F)
  finish_run order s run =
      let done = record run {
        status = completed;
        result = merge_results run.config (results_of run.id order s);
      } in
      (
        record s {
          runs = insert run.id done s.runs;
          progress = clear_run_progress run.id s.shards s.progress;
          shard_results = clear_shard_samples run.id s.shards s.shard_results;
        },
        some done,
      )

  unfoldable pub settle : List ℕ → MemoryStore F → Run F → MemoryStore F × Option (Run F)
  settle order s run =
      if is_cancelled run.status
      then (s, some run)
      else if all_completed run.id s.shards
      then finish_run order s run
      else (s, some run)

  unfoldable pub complete_shard :
      List ℕ → MemoryStore F → ℕ → RunResult F → MemoryStore F × Option (Run F)
  complete_shard order s id result = elim (lookup id s.shards) [
    | none ↦ (s, none)
    | some shard ↦
        let recorded = record s {
          shards = insert id (record shard { status = completed }) s.shards;
          shard_results = insert id result s.shard_results;
        } in
        settle order recorded (run_or_zero (lookup shard.run_id s.runs))
  ]
