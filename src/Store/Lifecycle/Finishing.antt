-- ===== src/Store/Lifecycle/Finishing.antt =====
-- CompleteShard, and the methods on searches, in internal/store/store.go.
use load_observatory.Prelude.{
  ℕ, ℤ, pos, suc, ◌≡◌, refl, true, false, List, [], ◌∷◌, Option, none, some, arith, inl, inr,
  Bool-cases, Option-cases, ◌⊎◌,
}
use load_observatory.Prelude.Floats.{Floats}
use load_observatory.Prelude.Map.{lookup}
use load_observatory.Core.Types.{
  Run, Shard, Status, completed, RunResult, AutoSearch, AutoSearchConfig, AutoSearchStatus,
}
use load_observatory.Core.Search
use load_observatory.Store.{MemoryStore, is_cancelled, cancel_run, new_run}
use load_observatory.Store.Zero.{zero_run, run_or_zero}
use load_observatory.Store.Completion.{all_completed, finish_run, settle, complete_shard}
use load_observatory.Store.Searches.{
  with_load, cancel_runs, cancel_search, queue_search_run, new_search, store_search, create_search,
  store_advanced, advance_if_running, advance_search,
}
use load_observatory.Store.Lifecycle.{
  ShardKeeps, may_shard_become, Advances, Advances-trans, Advances-refl,
}
use load_observatory.Store.Lifecycle.Queueing.{
  put_run-Advances, count_up-Advances, new_run-Advances, rewrite_run-Advances,
  rewrite_shard-Advances,
}
use load_observatory.Store.Lifecycle.Writing.{
  elsewhere-Advances, cancel_run-Advances, completed-moves,
}

module _ {F : Type 0} where
  pub cancel_runs-Advances : (ids : List ℕ) (s : MemoryStore F) → Advances s (cancel_runs ids s)
  unfolding cancel_runs
  cancel_runs-Advances [] s = Advances-refl s
  cancel_runs-Advances (id ∷ rest) s =
      Advances-trans s (cancel_run s id).0 _ (cancel_run-Advances s id)
        (cancel_runs-Advances rest (cancel_run s id).0)

  pub cancel_search-Advances : (s : MemoryStore F) (id : ℕ) → Advances s (cancel_search s id).0
  unfolding cancel_search
  cancel_search-Advances s id = elim (Option-cases (lookup id s.searches)) [
    | inl missing ↦ rw (missing, cancel_search) (Advances-refl s)
    | inr (search, found) ↦
        rw (found, cancel_search)
          (Advances-trans s _ _ (elsewhere-Advances s _ refl refl refl)
            (cancel_runs-Advances search.run_ids _))
  ]

completed-ShardKeeps : (shard : Shard) → ShardKeeps shard (record shard { status = completed })
completed-ShardKeeps shard = record {
  moves = into shard.status;
  same_id = refl;
  same_run = refl;
  same_index = refl;
}
  where
    into : (x : Status) → may_shard_become x completed ≡ true
    into x = ground arith

module _ {F : Type 0} ⦃fl : Floats F⦄ where
  -- A run that is not cancelled is written back as completed.
  finish_run-Advances :
      (order : List ℕ) (s : MemoryStore F) (k : ℕ) (run : Run F)
      → lookup k s.runs ≡ some run
      → is_cancelled run.status ≡ false
      → Advances s (finish_run order s run).0
  unfolding finish_run
  finish_run-Advances order s k run found here =
      Advances-trans s _ _
        (rewrite_run-Advances s k run _ found
          record { moves = completed-moves run.status here; same_id = refl; same_config = refl })
        (elsewhere-Advances _ _ refl refl refl)

  -- The zero value is written under the key 0, which no id takes.
  finish_zero-Advances :
      (order : List ℕ) (s : MemoryStore F) → Advances s (finish_run order s zero_run).0
  unfolding finish_run zero_run
  finish_zero-Advances order s =
      Advances-trans s _ _
        (put_run-Advances s 0 _ refl (omega arith) (λ h. absurd (omega (arith, h))))
        (elsewhere-Advances _ _ refl refl refl)

  settle-Advances :
      (order : List ℕ) (s : MemoryStore F) (k : ℕ)
      → Advances s (settle order s (run_or_zero (lookup k s.runs))).0
  unfolding settle run_or_zero
  settle-Advances order s k = elim (Option-cases (lookup k s.runs)) [
    | inl missing ↦ rw (missing, run_or_zero) (settle_zero (Bool-cases (all_completed 0 s.shards)))
    | inr (run, found) ↦
        rw (found, run_or_zero, settle)
          (elim (Bool-cases (is_cancelled run.status)) [
            | inl gone ↦ rw gone (Advances-refl s)
            | inr here ↦ rw here (elim (Bool-cases (all_completed run.id s.shards)) [
              | inl all ↦ rw all (finish_run-Advances order s k run found here)
              | inr some_left ↦ rw some_left (Advances-refl s)
            ])
          ])
  ]
    where
      settle_zero :
          (all_completed 0 s.shards ≡ true) ⊎ (all_completed 0 s.shards ≡ false)
          → Advances s (settle order s zero_run).0
      settle_zero (inl all) = rw (settle, all) (finish_zero-Advances order s)
      settle_zero (inr left) = rw (settle, left) (Advances-refl s)

  pub complete_shard-Advances :
      (order : List ℕ) (s : MemoryStore F) (id : ℕ) (result : RunResult F)
      → Advances s (complete_shard order s id result).0
  unfolding complete_shard
  complete_shard-Advances order s id result = elim (Option-cases (lookup id s.shards)) [
    | inl missing ↦ rw (missing, complete_shard) (Advances-refl s)
    | inr (shard, found) ↦
        rw (found, complete_shard)
          (Advances-trans s _ _
            (Advances-trans s _ _
              (rewrite_shard-Advances s id shard _ found (completed-ShardKeeps shard))
              (elsewhere-Advances _ _ refl refl refl))
            (settle-Advances order _ shard.run_id))
  ]

  queue_search_run-Advances :
      (s : MemoryStore F) (search : AutoSearch F) (load : ℤ)
      → Advances s (queue_search_run s search load).0
  unfolding queue_search_run new_run
  queue_search_run-Advances s search load =
      Advances-trans s _ _
        (new_run-Advances s
          (new_run (suc s.next_id) (some search.id) (with_load search.config.run load)) refl)
        (elsewhere-Advances _ _ refl refl refl)

  pub create_search-Advances :
      (s : MemoryStore F) (config : AutoSearchConfig F) → Advances s (create_search s config).0
  unfolding create_search store_search
  create_search-Advances s config =
      let t = record s { next_id = suc s.next_id } in
      let search = new_search (suc s.next_id) config in
      Advances-trans s t _ (count_up-Advances s) (
        Advances-trans t _ _ (queue_search_run-Advances t search config.start_load)
          (elsewhere-Advances _ _ refl refl refl))

  store_advanced-Advances :
      (s : MemoryStore F) (id : ℕ) (step : AutoSearch F × Option ℕ)
      → Advances s (store_advanced s id step)
  unfolding store_advanced
  store_advanced-Advances s id (search, none) = elsewhere-Advances s _ refl refl refl
  store_advanced-Advances s id (search, some next) =
      Advances-trans s _ _ (queue_search_run-Advances s search (pos next))
        (elsewhere-Advances _ _ refl refl refl)

  advance_if_running-Advances :
      (s : MemoryStore F) (id : ℕ) (search : AutoSearch F) (run : Run F) (status : AutoSearchStatus)
      → Advances s (advance_if_running s id search run status)
  unfolding advance_if_running
  advance_if_running-Advances s id search run AutoSearchStatus.running =
      store_advanced-Advances s id (Search.advance_search search run)
  advance_if_running-Advances s id search run _ = Advances-refl s

  pub advance_search-Advances : (s : MemoryStore F) (id : ℕ) → Advances s (advance_search s id)
  unfolding advance_search
  advance_search-Advances s id = elim (Option-cases (lookup id s.search_run)) [
    | inl missing ↦ rw (missing, advance_search) (Advances-refl s)
    | inr (search_id, noted) ↦
        rw (noted, advance_search)
          (elim (Option-cases (lookup search_id s.searches)) [
            | inl missing ↦ rw missing (Advances-refl s)
            | inr (search, found) ↦
                rw found (advance_if_running-Advances s search_id search _ search.status)
          ])
  ]
