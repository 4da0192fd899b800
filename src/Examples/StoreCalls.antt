-- ===== src/Examples/StoreCalls.antt =====
-- The store of internal/store/store.go: two shards that are claimed, completed and merged.
use load_observatory.Prelude.{
  ℕ, ◌/◌, ◌+◌, ℤ, pos, ◌≤ℤ◌, ◌≡◌, refl, false, List, [], ◌∷◌, map, none, some, arith,
}
use load_observatory.Prelude.Floats.{whole}
use load_observatory.Core.Types.{Run, Status, Target, RunResult, TargetType}
use load_observatory.Stats.{sum}
use load_observatory.Store.{MemoryStore, new_memory_store}
use load_observatory.Store
use load_observatory.Prelude.Map.{lookup}
use load_observatory.Store.Records.{delete_target}
use load_observatory.Store.Guards.{
  NotWaiting, cancel_run-NotWaiting, Deletes, delete_target-Deletes,
}
use load_observatory.Store.Claim
use load_observatory.Store.Claim.{share}
use load_observatory.Store.Claim.Offered.{Offered, claim_run-Offered}
use load_observatory.Store.Claim.Shares.{shares_sum, shares_complete}
use load_observatory.Store.Lifecycle.{IsWell, Later}
use load_observatory.Store.Lifecycle.Calls.{
  Call, create_target, create_run, claim_run, complete_shard, cancel_run, replay, replay-Later,
}
use load_observatory.Store.Merge.{merge_results}
use load_observatory.Store.Merge.Pieces.{distribution_of}
use load_observatory.Store.Merge.Totals.{
  issued, counter, merge_results-counter, merge_results-backoff_lost,
}
use load_observatory.Store.Merge.Pooling.{
  Metric, latency, ttft, distribution_by, all_samples, merge_results-Pooled,
}
use load_observatory.Examples.Inputs.{vu_config, result_at, run_at}

shares_complete_example :
    (shares_sum 50 3 3 ≡ pos 50)
    × ((index : ℕ)
        → (pos (50 / 3) ≤ℤ share (pos 50) 3 (pos index))
          × (share (pos 50) 3 (pos index) ≤ℤ pos (50 / 3 + 1)))
shares_complete_example = shares_complete 50 3 (omega arith)

abbrev sampled : ℕ → RunResult ℤ
sampled p95 = record (result_at p95) {
  samples = some (record {
    latency = pos 10 ∷ pos p95 ∷ [];
    ttft = pos 5 ∷ [];
    ttfo = [];
    itl = [];
    tpot = [];
    decimated = false;
  });
  backoff_events = pos 7;
}

abbrev results : List (RunResult ℤ)
results = sampled 400 ∷ sampled 900 ∷ []

merge_results-counter_example :
    counter issued (merge_results (vu_config 10) results) ≡ sum (map (counter issued) results)
merge_results-counter_example = merge_results-counter issued (vu_config 10) results

merge_results-backoff_lost_example : (merge_results (vu_config 10) results).backoff_events ≡ pos 0
merge_results-backoff_lost_example = merge_results-backoff_lost (vu_config 10) results

merge_results-Pooled_example :
    ((metric : Metric)
      → distribution_by metric (merge_results (vu_config 10) results)
        ≡ distribution_of (all_samples metric results))
    × ((merge_results (vu_config 10) results).p95_millis
        ≡ (distribution_of (all_samples latency results)).p95_millis)
    × ((merge_results (vu_config 10) results).ttft_p95_millis
        ≡ (distribution_of (all_samples ttft results)).p95_millis)
merge_results-Pooled_example = merge_results-Pooled (vu_config 10) results refl

abbrev model : Target
model = record {
  id = 0;
  name = "model";
  type = TargetType.model;
  url = "http://10.0.0.1/v1";
  model = "m";
  api_key = "";
  has_api_key = false;
}

abbrev setup : List (Call ℤ)
setup = create_target model ∷ create_run (vu_config 10) ∷ claim_run (3 ∷ 4 ∷ 5 ∷ []) (pos 100) ∷ []

abbrev ending : List (Call ℤ)
ending = complete_shard (3 ∷ 4 ∷ 5 ∷ []) 3 (sampled 400) ∷ cancel_run 2 ∷ []

replay-Later_example :
    IsWell (replay new_memory_store setup)
    × Later (replay new_memory_store setup) (replay (replay new_memory_store setup) ending)
replay-Later_example = replay-Later setup ending

-- The shards of the run, before anyone claims one.
abbrev waiting : List (Call ℤ)
waiting = create_target model ∷ create_run (vu_config 10) ∷ []

claim_run-Offered_example :
    Offered
      (5 ∷ 3 ∷ 4 ∷ [])
      (replay new_memory_store waiting)
      (Claim.claim_run (5 ∷ 3 ∷ 4 ∷ []) (pos 100) (replay new_memory_store waiting))
claim_run-Offered_example =
    claim_run-Offered (5 ∷ 3 ∷ 4 ∷ []) (pos 100) (replay new_memory_store waiting)

abbrev stored : Run ℤ
stored = record (run_at 10 400) { status = Status.running }

-- A running run with a shard that waits.
abbrev busy : MemoryStore ℤ
busy = record {
  next_id = 20;
  targets = (1, model) ∷ [];
  runs = (10, stored) ∷ [];
  searches = [];
  search_run = [];
  shards = (11, record { id = 11; run_id = 10; status = Status.queued; index = pos 0 }) ∷ [];
  shard_results = [];
  progress = [];
  captures = [];
  capture_settings = none;
  agent_seen = none;
}

found_stored : lookup 10 busy.runs ≡ some stored
unfolding lookup
found_stored = refl

cancel_run-NotWaiting_example :
    let t = (Store.cancel_run busy 10).0 in
    (lookup 10 t.runs ≡ some (record stored { status = Status.cancelled }))
    × ((Store.cancel_run busy 10).1 ≡ some (record stored { status = Status.cancelled }))
    × ((k : ℕ) → NotWaiting 10 (lookup k t.shards))
cancel_run-NotWaiting_example = cancel_run-NotWaiting busy 10 stored found_stored refl

delete_target-Deletes_example : Deletes busy 1 (delete_target busy 1)
delete_target-Deletes_example = delete_target-Deletes busy 1
