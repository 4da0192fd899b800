-- ===== src/Examples/Visits.antt =====
-- internal/store/store.go: two shards of a run whose results are visited in either order.
use mathlib.Core.List.{Permᴰ}
use load_observatory.Prelude.{ℕ, ℤ, pos, ◌≡◌, refl, true, [], ◌∷◌, some}
use load_observatory.Prelude.Floats.{whole}
use load_observatory.Prelude.Map.{lookup}
use load_observatory.Core.Types.{RunResult, Shard, Status}
use load_observatory.Store.{MemoryStore, new_memory_store}
use load_observatory.Store.Completion.{results_of}
use load_observatory.Store.Merge.{merge_results}
use load_observatory.Store.Merge.Totals.{Counter, counter}
use load_observatory.Store.Merge.Pooling.{Metric, distribution_by, any_samples}
use load_observatory.Store.Merge.Order.{merge_results-unordered}
use load_observatory.Examples.Inputs.{vu_config, result_at}

abbrev sampled : ℕ → RunResult ℤ
sampled p95 = record (result_at p95) {
  samples = some (record {
    latency = pos 10 ∷ pos p95 ∷ [];
    ttft = pos 5 ∷ [];
    ttfo = [];
    itl = [];
    tpot = [];
    decimated = true;
  });
}

abbrev shard : ℕ → Shard
shard id = record { id = id; run_id = 1; status = Status.completed; index = pos id }

abbrev reported : MemoryStore ℤ
reported = record new_memory_store {
  shards = (2, shard 2) ∷ (3, shard 3) ∷ [];
  shard_results = (2, sampled 400) ∷ (3, sampled 900) ∷ [];
}

reported-any_samples : any_samples (results_of 1 (2 ∷ 3 ∷ []) reported) ≡ true
unfolding results_of new_memory_store lookup
reported-any_samples = refl

merge_results-unordered_example :
    let one = merge_results (vu_config 10) (results_of 1 (2 ∷ 3 ∷ []) reported) in
    let two = merge_results (vu_config 10) (results_of 1 (3 ∷ 2 ∷ []) reported) in
    ((c : Counter) → counter c one ≡ counter c two)
    × ((metric : Metric) → distribution_by metric one ≡ distribution_by metric two)
    × (one.p95_millis ≡ two.p95_millis)
    × (one.ttft_p95_millis ≡ two.ttft_p95_millis)
merge_results-unordered_example =
    merge_results-unordered (vu_config 10) 1 reported (2 ∷ 3 ∷ []) (3 ∷ 2 ∷ [])
      (Permᴰ.swap refl refl) reported-any_samples
