-- ===== src/Store/Lifecycle/Calls.antt =====
-- The methods of MemoryStore (internal/store/store.go) in any order. The lock makes each one atomic, so
-- what several clients do at a time is one list of calls.
use load_observatory.Prelude.{ℕ, ℤ, refl, arith, List, [], ◌∷◌, String}
use load_observatory.Prelude.Floats.{Floats}
use load_observatory.Core.Server.{ServerConfig}
use load_observatory.Core.Types.{
  Target, RunConfig, RunResult, RunProgress, MonitoringSample, AutoSearchConfig,
}
use load_observatory.Store
use load_observatory.Store.{MemoryStore}
use load_observatory.Store.Claim
use load_observatory.Store.Completion
use load_observatory.Store.Searches
use load_observatory.Store.Records
use load_observatory.Store.Lifecycle.{IsWell, Later, Advances, Advances-trans, Advances-refl}
use load_observatory.Store.Lifecycle.Queueing.{create_run-Advances, create_target-Advances}
use load_observatory.Store.Lifecycle.Claiming.{claim_run-Advances}
use load_observatory.Store.Lifecycle.Writing
use load_observatory.Store.Lifecycle.Finishing

pub data Call (F : Type 0) : Type 0 where
  create_target : Target → Call F
  delete_target : ℕ → Call F
  create_run : RunConfig F → Call F
  claim_run : List ℕ → ℤ → Call F
  complete_run : ℕ → RunResult F → Call F
  complete_shard : List ℕ → ℕ → RunResult F → Call F
  cancel_run : ℕ → Call F
  set_created_by : ℕ → String → Call F
  set_detected_server : ℕ → ServerConfig F → Call F
  set_shard_progress : ℕ → RunProgress F → Call F
  add_monitoring : ℤ → ℕ → MonitoringSample F → Call F
  create_search : AutoSearchConfig F → Call F
  cancel_search : ℕ → Call F
  advance_search : ℕ → Call F

module _ {F : Type 0} ⦃fl : Floats F⦄ where
  unfoldable pub perform : MemoryStore F → Call F → MemoryStore F
  perform s (create_target target) = (Store.create_target s target).0
  perform s (delete_target id) = (Records.delete_target s id).0
  perform s (create_run config) = (Store.create_run s config).0
  perform s (claim_run order now) = (Claim.claim_run order now s).0
  perform s (complete_run id result) = (Store.complete_run s id result).0
  perform s (complete_shard order id result) = (Completion.complete_shard order s id result).0
  perform s (cancel_run id) = (Store.cancel_run s id).0
  perform s (set_created_by id user) = Store.set_created_by s id user
  perform s (set_detected_server id detected) = Records.set_detected_server s id detected
  perform s (set_shard_progress id progress) = (Records.set_shard_progress s id progress).0
  perform s (add_monitoring now id sample) = Records.add_monitoring now s id sample
  perform s (create_search config) = (Searches.create_search s config).0
  perform s (cancel_search id) = (Searches.cancel_search s id).0
  perform s (advance_search run_id) = Searches.advance_search s run_id

  unfoldable pub replay : MemoryStore F → List (Call F) → MemoryStore F
  replay s [] = s
  replay s (call ∷ calls) = replay (perform s call) calls

  perform-Advances : (s : MemoryStore F) (call : Call F) → Advances s (perform s call)
  unfolding perform
  perform-Advances s (create_target target) = create_target-Advances s target
  perform-Advances s (delete_target id) = Writing.delete_target-Advances s id
  perform-Advances s (create_run config) = create_run-Advances s config
  perform-Advances s (claim_run order now) = claim_run-Advances order now s
  perform-Advances s (complete_run id result) = Writing.complete_run-Advances s id result
  perform-Advances s (complete_shard order id result) =
      Finishing.complete_shard-Advances order s id result
  perform-Advances s (cancel_run id) = Writing.cancel_run-Advances s id
  perform-Advances s (set_created_by id user) = Writing.set_created_by-Advances s id user
  perform-Advances s (set_detected_server id detected) =
      Writing.set_detected_server-Advances s id detected
  perform-Advances s (set_shard_progress id progress) =
      Writing.set_shard_progress-Advances s id progress
  perform-Advances s (add_monitoring now id sample) =
      Writing.add_monitoring-Advances now s id sample
  perform-Advances s (create_search config) = Finishing.create_search-Advances s config
  perform-Advances s (cancel_search id) = Finishing.cancel_search-Advances s id
  perform-Advances s (advance_search run_id) = Finishing.advance_search-Advances s run_id

  replay-Advances : (s : MemoryStore F) (calls : List (Call F)) → Advances s (replay s calls)
  unfolding replay
  replay-Advances s [] = Advances-refl s
  replay-Advances s (call ∷ calls) =
      Advances-trans s (perform s call) _ (perform-Advances s call)
        (replay-Advances (perform s call) calls)

  new_memory_store-IsWell : IsWell (Store.new_memory_store {F = F})
  unfolding Store.new_memory_store load_observatory.Prelude.Map.lookup
  new_memory_store-IsWell = record { runs_keyed = λ k. tt; shards_keyed = λ k. tt }

  -- After any calls on a new store, every run and every shard is stored under its own id, which is at
  -- most the counter. Whatever calls follow, the counter does not fall, and each run and shard with an
  -- id above 0 is still there: the run with its id and its configuration, completed or cancelled if it
  -- was so, and not queued again once it ran; the shard with its id, its run and its index, and never
  -- queued again once it left the queue.
  pub replay-Later :
      (before after : List (Call F))
      → let reached = replay Store.new_memory_store before in
        IsWell reached × Later reached (replay reached after)
  replay-Later before after =
      let (well, moved) = replay-Advances Store.new_memory_store before new_memory_store-IsWell in
      (well, (replay-Advances (replay Store.new_memory_store before) after well).1)
