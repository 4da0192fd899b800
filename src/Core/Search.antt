-- ===== src/Core/Search.antt =====
-- internal/core/search.go: AdvanceSearch, stepFrom, consecutiveUnstableTail, finishSearch, KneeLoad.
-- A function that writes through `*AutoSearch` returns the new record; `(load, true)` is `some load`
-- and `(0, false)` is `none`.
pub mod Knee
pub mod Rungs
pub mod Tail
pub mod Outcome
pub mod Advance
use mathlib.Core.List.{reverse}
use load_observatory.Prelude.{
  ℕ, zero, suc, ◌*◌, ◌/◌, ℤ, pos, ltb_ℤ, leb, eqb_ℤ, max_ℤ, times_ℤ, over_ℤ, if◌then◌else◌, Bool,
  true, false, ◌&&◌, ◌||◌, not, List, [], ◌∷◌, ◌++◌, Option, none, some,
}
use load_observatory.Prelude.Floats.{Floats}
use load_observatory.Prelude.Sorting.{sort_by}
use load_observatory.Core.Types.{
  RunConfig, LoadMode, vu, rps, other, Run, AutoSearch, AutoSearchStep, AutoSearchStatus,
  SearchMessage, none_met, met_to_max, knee_found, Instability,
}
use load_observatory.Core.Ladder.{sweep_ladder}
use load_observatory.Core.Verdict.{is_run_stable, instability_message}

-- `for _, rung := range search.Ladder { if rung > load { return rung } }`
unfoldable pub next_rung : ℤ → List ℕ → Option ℕ
next_rung load [] = none
next_rung load (rung ∷ rest) = if ltb_ℤ load (pos rung) then some rung else next_rung load rest

abbrev pub provision_headroom_percent : ℤ
provision_headroom_percent = pos 70

abbrev pub unstable_rungs_before_stopping : ℕ
unstable_rungs_before_stopping = 2

-- `search.ProvisionLoad = knee * 70 / 100`, and at least 1.
unfoldable pub provision_for : ℤ → ℤ
provision_for knee = max_ℤ (pos 1) (over_ℤ (times_ℤ knee provision_headroom_percent) (pos 100))

module _ {F : Type 0} where
  load_in_mode : LoadMode → RunConfig F → ℤ
  load_in_mode vu config = config.vus
  load_in_mode rps config = config.rps
  load_in_mode (other mode) config = config.vus

  -- `load := run.Config.VUs; if Mode == LoadModeRPS { load = run.Config.RPS }`
  unfoldable pub load_of : RunConfig F → ℤ
  unfolding load_in_mode
  load_of config = load_in_mode config.mode config

  unfoldable pub unstable_run : List (AutoSearchStep F) → ℕ
  unstable_run [] = 0
  unstable_run (step ∷ earlier) =
      let more = unstable_run earlier in if step.stable then 0 else suc more

  -- From the last step backwards, up to the first stable one.
  unfoldable pub consecutive_unstable_tail : List (AutoSearchStep F) → ℕ
  unfolding unstable_run
  consecutive_unstable_tail steps = unstable_run (reverse steps)

  -- The loop of KneeLoad over the sorted steps.
  unfoldable pub knee_from : ℤ → List (AutoSearchStep F) → ℤ
  knee_from knee [] = knee
  knee_from knee (step ∷ rest) =
      let next = knee_from step.load rest in if step.stable then next else knee

  step_load : AutoSearchStep F → ℤ
  step_load step = step.load

  unfoldable pub knee_load : List (AutoSearchStep F) → ℤ
  unfolding step_load
  knee_load steps = knee_from (pos 0) (sort_by step_load steps)

  first_reason : List (AutoSearchStep F) → Option (Instability F)
  first_reason [] = none
  first_reason (step ∷ rest) = step.reason

  unfoldable pub finish_search : AutoSearch F → AutoSearch F
  unfolding first_reason provision_for
  finish_search search =
      let knee = knee_load search.steps in
      let done = record search {
        status = AutoSearchStatus.completed;
        next_load = pos 0;
        recommended_load = knee;
      } in
      if eqb_ℤ knee (pos 0)
      then record done { message = some (none_met (first_reason search.steps)) }
      else record done {
        provision_load = provision_for knee;
        message = some (
            if ltb_ℤ knee search.config.max_load
            then knee_found knee (provision_for knee)
            else met_to_max knee);
      }

module _ {F : Type 0} ⦃fl : Floats F⦄ where
  unfoldable pub step_from : ℤ → Run F → AutoSearchStep F
  step_from load run =
      let stable = is_run_stable run in
      record {
        load = load;
        run_id = run.id;
        stable = stable;
        reason = if stable then none else some (instability_message run);
        throughput_rps = run.result.throughput_rps;
        output_tokens_per_sec = run.result.tokens.output_per_second;
        ttft_p95_millis = run.result.ttft.p95_millis;
        tpot_p95_millis = run.result.tpot.p95_millis;
        latency_p95_millis =
            if eqb_ℤ run.result.latency.p95_millis (pos 0)
            then run.result.p95_millis
            else run.result.latency.p95_millis;
        goodput_percent = run.result.goodput_percent;
        completion_percent = run.result.completion_percent;
      }

  unfoldable pub planned : AutoSearch F → List ℕ → List ℕ
  planned search [] = sweep_ladder search.config.start_load search.config.max_load
  planned search (rung ∷ rest) = rung ∷ rest

  -- The ladder if it is missing, the new step, and the bounds that it moves.
  unfoldable pub record_step : AutoSearch F → Run F → AutoSearch F
  unfolding planned step_from
  record_step search run =
      let load = load_of run.config in
      let stable = is_run_stable run in
      record search {
        ladder = planned search search.ladder;
        steps = search.steps ++ (step_from load run ∷ []);
        stable_load = if stable then max_ℤ search.stable_load load else search.stable_load;
        failed_load =
            if stable
            then search.failed_load
            else if eqb_ℤ search.failed_load (pos 0) || ltb_ℤ load search.failed_load
            then load
            else search.failed_load;
      }

  pub climb : AutoSearch F → Option ℕ → AutoSearch F × Option ℕ
  climb search none = (finish_search search, none)
  climb search (some rung) = (record search { next_load = pos rung }, some rung)

  unfoldable pub advance_search : AutoSearch F → Run F → AutoSearch F × Option ℕ
  unfolding climb
  advance_search search run =
      let recorded = record_step search run in
      if eqb_ℤ recorded.stable_load (pos 0) && not (is_run_stable run)
      then (finish_search recorded, none)
      else if leb unstable_rungs_before_stopping (consecutive_unstable_tail recorded.steps)
      then (finish_search recorded, none)
      else climb recorded (next_rung (load_of run.config) recorded.ladder)
