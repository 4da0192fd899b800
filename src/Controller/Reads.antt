-- ===== src/Controller/Reads.antt =====
-- internal/controller/server.go: the handlers that show what is stored, and the agents' heartbeat.
use load_observatory.Prelude.{ℕ, ℤ, if◌then◌else◌, List, [], none, some, map}
use load_observatory.Prelude.Floats.{Floats}
use load_observatory.Prelude.Map.{lookup}
use load_observatory.Core.Types.{Run}
use load_observatory.Core.Captures.{CaptureId, CaptureSession}
use load_observatory.Store.{MemoryStore}
use load_observatory.Store.Captures
use load_observatory.Store.Views
use load_observatory.Controller.{
  Response, RunView, answer, refuse, nothing, of_run, of_search, of_targets, of_runs, of_searches,
  of_captures, of_health, view, public_target,
}

module _ {F : Type 0} ⦃fl : Floats F⦄ where
  unfoldable pub get_run : List ℕ → MemoryStore F → ℕ → Response F
  get_run texts s id = elim (Views.get_run texts s id) [
    | none ↦ refuse 404
    | some run ↦ answer 200 (of_run (view run))
  ]

  unfoldable pub get_search : MemoryStore F → ℕ → Response F
  get_search s id = elim (lookup id s.searches) [
    | none ↦ refuse 404
    | some found ↦ answer 200 (of_search found)
  ]

  unfoldable pub list_targets : List ℕ → MemoryStore F → Response F
  list_targets ids s = answer 200 (of_targets (map public_target (Views.list_targets ids s)))

  -- The verdicts stand on the samples, and the samples are left out.
  unfoldable pub list_view : List (Run F) → List (RunView F)
  list_view runs =
      map
        (λ (run : Run F).
          let item = view run in record item { run = record run { monitoring = [] } })
        runs

  unfoldable pub list_runs : List ℕ → List ℕ → MemoryStore F → Response F
  unfolding list_view
  list_runs texts ids s = answer 200 (of_runs (list_view (Views.list_runs texts ids s)))

  unfoldable pub list_searches : List ℕ → MemoryStore F → Response F
  list_searches ids s = answer 200 (of_searches (Views.list_searches ids s))

  unfoldable pub list_captures : List (CaptureId × CaptureSession) → Response F
  list_captures sessions = answer 200 (of_captures (Views.list_captures sessions))

  unfoldable pub delete_capture : MemoryStore F → CaptureId → MemoryStore F × Response F
  delete_capture s id =
      let (after, deleted) = Captures.delete_capture s id in
      (after, if deleted then refuse 204 else refuse 404)

  unfoldable pub heartbeat : ℤ → MemoryStore F → MemoryStore F × Response F
  heartbeat now s = (Views.touch_agent now s, answer 204 nothing)

  -- The counts and the agent of /api/health.
  unfoldable pub health : ℤ → MemoryStore F → Response F
  health now s = answer 200 (of_health (Views.health now s))
