-- ===== src/Controller/Changes.antt =====
-- internal/controller/server.go: the handlers that create, cancel and delete targets, runs and searches.
use Prim.Native.Nat.{ℕ}
use load_observatory.Prelude.{
  ℤ, pos, eqb_ℤ, if◌then◌else◌, Bool, true, false, ◌&&◌, not, List, Option, none, some,
}
use load_observatory.Prelude.Floats.{Floats}
use load_observatory.Prelude.Map.{lookup}
use load_observatory.Core.Server.{eqb_text}
use load_observatory.Core.Types.{
  Target, TargetType, web, model, RunConfig, Run, AutoSearchConfig, MonitoringSample, LoadMode, vu,
  rps, other,
}
use load_observatory.Core.Target.{Text, Url, validate_target}
use load_observatory.Core.Validation.{validate_run_config, validate_auto_search_config}
use load_observatory.Auth.{User}
use load_observatory.Store.{MemoryStore}
use load_observatory.Store
use load_observatory.Store.Records
use load_observatory.Store.Records.{target_deleted, target_not_found, target_in_use}
use load_observatory.Store.Searches
use load_observatory.Controller.Defaults.{with_defaults}
use load_observatory.Controller.{
  Response, answer, refuse, of_run, of_search, of_target, view, public_target,
}

abbrev is_supported : TargetType → Bool
is_supported web = true
is_supported model = true
is_supported (TargetType.other type) = false

abbrev pub is_model : TargetType → Bool
is_model model = true
is_model _ = false

abbrev default_start : LoadMode → ℤ
default_start rps = pos 10
default_start vu = pos 5
default_start (other mode) = pos 5

module _ {F : Type 0} ⦃fl : Floats F⦄ where
  unfoldable pub cancel_run : MemoryStore F → ℕ → MemoryStore F × Response F
  cancel_run s id =
      let (after, found) = Store.cancel_run s id in
      elim found [ none ↦ (after, refuse 404) | some run ↦ (after, answer 200 (of_run (view run))) ]

  unfoldable pub cancel_search : MemoryStore F → ℕ → MemoryStore F × Response F
  cancel_search s id =
      let (after, found) = Searches.cancel_search s id in
      elim found [
        | none ↦ (after, refuse 404)
        | some search ↦ (after, answer 200 (of_search search))
      ]

  unfoldable pub delete_target : MemoryStore F → ℕ → MemoryStore F × Response F
  delete_target s id =
      let (after, result) = Records.delete_target s id in
      elim result [
        | target_deleted ↦ (after, refuse 204)
        | target_in_use ↦ (after, refuse 409)
        | target_not_found ↦ (after, refuse 404)
      ]

  -- createTarget, with the URL of the target as it is parsed.
  unfoldable pub create_target :
      (Text → Option Bool)
      → List Text
      → MemoryStore F
      → Option Url
      → Option Target
      → MemoryStore F × Response F
  create_target private_ip suffixes s url none = (s, refuse 400)
  create_target private_ip suffixes s url (some target) =
      if eqb_text target.name ""
      then (s, refuse 400)
      else if not (is_supported target.type)
      then (s, refuse 400)
      else if is_model target.type && eqb_text target.model ""
      then (s, refuse 400)
      else elim (validate_target url private_ip suffixes) [
        | some e ↦ (s, refuse 400)
        | none ↦
            let (after, stored) = Store.create_target s target in
            (after, answer 201 (of_target (public_target stored)))
      ]

  -- The run of createRun once its configuration is accepted.
  unfoldable pub start_run :
      ℤ → MonitoringSample F → Option User → MemoryStore F → RunConfig F → MemoryStore F × Run F
  start_run now sample none s config =
      let (after, run) = Store.create_run s config in
      (Records.add_monitoring now after run.id sample, run)
  start_run now sample (some user) s config =
      let (after, run) = Store.create_run s config in
      (
        Records.add_monitoring now (Store.set_created_by after run.id user.name) run.id sample,
        record run { created_by = user.name },
      )

  unfoldable pub create_run :
      ℤ
      → MonitoringSample F
      → Option User
      → MemoryStore F
      → Option (RunConfig F)
      → MemoryStore F × Response F
  create_run now sample user s none = (s, refuse 400)
  create_run now sample user s (some sent) = elim (lookup sent.target_id s.targets) [
    | none ↦ (s, refuse 404)
    | some target ↦ elim (validate_run_config (with_defaults sent)) [
      | some e ↦ (s, refuse 400)
      | none ↦
          let (after, run) = start_run now sample user s (with_defaults sent) in
          (after, answer 201 (of_run (view run)))
    ]
  ]

  -- The configuration of createSearch with its defaults and its first load.
  unfoldable pub search_with_defaults : AutoSearchConfig F → AutoSearchConfig F
  search_with_defaults sent =
      let filled = with_defaults sent.run in
      let start =
        if eqb_ℤ sent.start_load (pos 0) then default_start filled.mode else sent.start_load in
      record sent { run = Searches.with_load filled start; start_load = start }

  unfoldable pub create_search :
      MemoryStore F → Option (AutoSearchConfig F) → MemoryStore F × Response F
  create_search s none = (s, refuse 400)
  create_search s (some sent) = elim (lookup sent.run.target_id s.targets) [
    | none ↦ (s, refuse 404)
    | some target ↦ elim (validate_auto_search_config (search_with_defaults sent)) [
      | some e ↦ (s, refuse 400)
      | none ↦
          let (after, search) = Searches.create_search s (search_with_defaults sent) in
          (after, answer 201 (of_search search))
    ]
  ]
