-- ===== src/Store/Views.antt =====
-- internal/store/store.go: what is read of the store, and the last contact of an agent. `texts` are the
-- ids of the shards in the order of their texts, and other lists of ids the order in which `range`
-- visits a map.
use load_observatory.Prelude.{
  ℕ, ℤ, pos, ltb_ℤ, ◌-ℤ◌, ◌==◌, if◌then◌else◌, Bool, false, List, [], ◌∷◌, Option, none, some, map,
}
use load_observatory.Prelude.Map.{lookup}
use load_observatory.Prelude.Sorting.{sort_by}
use load_observatory.Core.Types.{Target, Run, RunProgress, AutoSearch}
use load_observatory.Core.Captures.{CaptureId, CaptureSession}
use load_observatory.Store.{MemoryStore}
use load_observatory.Store.Records.{count_active, count_running}

-- The values under the keys that are visited.
unfoldable pub visited : {A : Type 0} → List ℕ → List (ℕ × A) → List A
visited [] entries = []
visited (id ∷ rest) entries = elim (lookup id entries) [
  | none ↦ visited rest entries
  | some value ↦ value ∷ visited rest entries
]

-- ListCaptures, with the sessions in the order of the visit: the one updated last comes first.
unfoldable pub list_captures : List (CaptureId × CaptureSession) → List CaptureSession
list_captures sessions =
    sort_by (λ (item : CaptureSession). pos 0 -ℤ item.updated_unix_millis) (map (λ e. e.1) sessions)

-- Whether an agent was there less than five seconds ago.
unfoldable pub agent_online : ℤ → Option ℤ → Bool
agent_online now none = false
agent_online now (some seen) = ltb_ℤ (now -ℤ seen) (pos 5000000000)

module _ {F : Type 0} where
  unfoldable pub run_progress : List ℕ → MemoryStore F → ℕ → List (RunProgress F)
  run_progress [] s run_id = []
  run_progress (id ∷ rest) s run_id = elim (lookup id s.shards) [
    | none ↦ run_progress rest s run_id
    | some shard ↦
        if shard.run_id == run_id
        then elim (lookup id s.progress) [
          | none ↦ run_progress rest s run_id
          | some progress ↦ progress ∷ run_progress rest s run_id
        ]
        else run_progress rest s run_id
  ]

  unfoldable pub get_run : List ℕ → MemoryStore F → ℕ → Option (Run F)
  get_run texts s id = elim (lookup id s.runs) [
    | none ↦ none
    | some run ↦ some (record run { progress = run_progress texts s id })
  ]

  unfoldable pub list_runs : List ℕ → List ℕ → MemoryStore F → List (Run F)
  unfolding run_progress visited
  list_runs texts ids s =
      map (λ (run : Run F). record run { progress = run_progress texts s run.id })
        (visited ids s.runs)

  unfoldable pub list_searches : List ℕ → MemoryStore F → List (AutoSearch F)
  list_searches ids s = visited ids s.searches

  unfoldable pub list_targets : List ℕ → MemoryStore F → List Target
  list_targets ids s = visited ids s.targets

  unfoldable pub touch_agent : ℤ → MemoryStore F → MemoryStore F
  touch_agent now s = record s { agent_seen = some now }

  unfoldable pub health : ℤ → MemoryStore F → ℕ × ℕ × Bool
  health now s = (count_active s.runs, count_running s.runs, agent_online now s.agent_seen)
