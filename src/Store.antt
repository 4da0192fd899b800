-- ===== src/Store.antt =====
-- internal/store/store.go: MemoryStore. A method under the mutex is one function from the state to the
-- new state and its result; the lock makes methods atomic, so an execution is a list of calls. Ids are
-- numbers (see Core/Types). `range` over a map visits its keys in an order that the caller of the model
-- gives; times come in as arguments. `agent_seen`, in nanoseconds, is `none` for the zero time.
pub mod Zero
pub mod Claim
pub mod Searches
pub mod Records
pub mod Merge
pub mod Completion
pub mod Lifecycle
pub mod Guards
pub mod Captures
pub mod Persistence
pub mod Views
use load_observatory.Prelude.{
  ℕ, zero, suc, ◌+◌, ℤ, pos, pos_part, ltb_ℤ, eqb_ℤ, ◌==◌, leb, if◌then◌else◌, Bool, true, false,
  ◌&&◌, ◌||◌, List, [], ◌∷◌, ◌++◌, Option, none, some, length, String,
}
use load_observatory.Prelude.Floats.{Floats}
use load_observatory.Prelude.Map.{lookup, insert, delete, update_all}
use load_observatory.Core.Types.{
  Target, RunConfig, RunResult, Run, RunProgress, WorkloadId, Status, queued, running, completed,
  cancelled, AutoSearch, AutoSearchConfig, AutoSearchStatus, SearchMessage, Shard, LoadMode, vu,
  rps, other, MonitoringSample,
}
use load_observatory.Core.Captures.{CaptureId, CaptureSession, CaptureSettings}
use load_observatory.Core.Ladder.{sweep_ladder}
use load_observatory.Core.Search
use Zero.{zero_server, zero_result}

pub record MemoryStore (F : Type 0) : Type 0 where
  pub next_id : ℕ
  pub targets : List (ℕ × Target)
  pub runs : List (ℕ × Run F)
  pub searches : List (ℕ × AutoSearch F)
  pub search_run : List (ℕ × ℕ)
  pub shards : List (ℕ × Shard)
  pub shard_results : List (ℕ × RunResult F)
  pub progress : List (ℕ × RunProgress F)
  pub captures : List (CaptureId × CaptureSession)
  pub capture_settings : Option (CaptureSettings F)
  pub agent_seen : Option ℤ

-- `run.Status == "queued" || run.Status == "running"`
abbrev pub is_active : Status → Bool
is_active Status.unset = false
is_active queued = true
is_active running = true
is_active completed = false
is_active cancelled = false

abbrev pub is_queued : Status → Bool
is_queued queued = true
is_queued _ = false

new_shard : ℕ → ℕ → ℕ → Shard
new_shard id run_id index = record { id = id; run_id = run_id; status = queued; index = pos index }

shard_cancelled : ℕ → Shard → Shard
shard_cancelled run_id shard =
    if (shard.run_id == run_id) && is_queued shard.status
    then record shard { status = cancelled }
    else shard

abbrev pub is_cancelled : Status → Bool
is_cancelled cancelled = true
is_cancelled _ = false

module _ {F : Type 0} where
  unfoldable pub new_memory_store : MemoryStore F
  new_memory_store = record {
    next_id = 0;
    targets = [];
    runs = [];
    searches = [];
    search_run = [];
    shards = [];
    shard_results = [];
    progress = [];
    captures = [];
    capture_settings = none;
    agent_seen = none;
  }

  unfoldable pub create_target : MemoryStore F → Target → MemoryStore F × Target
  create_target s target =
      let id = suc s.next_id in
      let named = record target { id = id } in
      (record s { next_id = id; targets = insert id named s.targets }, named)

  unfoldable pub shard_count : RunConfig F → ℕ
  shard_count config = if ltb_ℤ config.shards (pos 1) then 1 else pos_part config.shards

  -- The loop of queueShardsLocked, with the shards left to queue and the index of the next.
  unfoldable pub queue_shards_from : ℕ → ℕ → ℕ → MemoryStore F → MemoryStore F
  unfolding new_shard
  queue_shards_from zero index run_id s = s
  queue_shards_from (suc left) index run_id s =
      let id = suc s.next_id in
      queue_shards_from left (suc index) run_id
        (record s { next_id = id; shards = insert id (new_shard id run_id index) s.shards })

  unfoldable pub queue_shards : Run F → MemoryStore F → MemoryStore F
  unfolding shard_count queue_shards_from
  queue_shards run s = queue_shards_from (shard_count run.config) 0 run.id s

  -- The loop writes each shard by its own key, so its order does not matter.
  unfoldable pub cancel_run : MemoryStore F → ℕ → MemoryStore F × Option (Run F)
  unfolding shard_cancelled
  cancel_run s id = elim (lookup id s.runs) [
    | none ↦ (s, none)
    | some run ↦
        if is_active run.status
        then (
          record s {
            runs = insert id (record run { status = cancelled }) s.runs;
            shards = update_all (shard_cancelled id) s.shards;
          },
          some (record run { status = cancelled }),
        )
        else (s, some run)
  ]

  unfoldable pub set_created_by : MemoryStore F → ℕ → String → MemoryStore F
  set_created_by s id user = elim (lookup id s.runs) [
    | none ↦ s
    | some run ↦ record s { runs = insert id (record run { created_by = user }) s.runs }
  ]

  -- CompleteRun: the whole run at once.
  unfoldable pub complete_run : MemoryStore F → ℕ → RunResult F → MemoryStore F × Option (Run F)
  complete_run s id result = elim (lookup id s.runs) [
    | none ↦ (s, none)
    | some run ↦ if is_cancelled run.status then (s, some run) else (
      record s { runs = insert id (record run { status = completed; result = result }) s.runs },
      some (record run { status = completed; result = result }),
    )
  ]

module _ {F : Type 0} ⦃fl : Floats F⦄ where
  unfoldable pub new_run : ℕ → Option ℕ → RunConfig F → Run F
  new_run id search_id config = record {
    id = id;
    status = queued;
    search_id = search_id;
    config = record config { workload_id = WorkloadId.of_run id };
    result = zero_result;
    monitoring = [];
    progress = [];
    started_unix = pos 0;
    detected_server = zero_server;
    created_by = "";
  }

  unfoldable pub create_run : MemoryStore F → RunConfig F → MemoryStore F × Run F
  unfolding new_run
  create_run s config =
      let id = suc s.next_id in
      let run = new_run id none config in
      (queue_shards run (record s { next_id = id; runs = insert id run s.runs }), run)
