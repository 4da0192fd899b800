-- ===== src/Core/Validation/Loops.antt =====
-- What the loops of ValidateRunConfig (internal/core/target.go) over stages, tasks, journeys and trace
-- events let through.
use Prim.Native.String.{len}
use load_observatory.Core.Server.{eqb_text}
use load_observatory.Prelude.{
  ℤ, pos, ltb_ℤ, ltb, ◌==◌, ◌≡◌, refl, sym, ◌∙◌, String, Bool, false, ◌||◌, not, List, [], ◌∷◌,
  Option, none, length, All, arith,
}
use load_observatory.Core.Types.{LoadMode, LoadStage, TraceEvent, ScenarioTask, UserJourney}
use text.Mathlib.TextEquality.{eq_iff}
use mathlib.Core.Bool.{true≢false}
use load_observatory.Core.Validation.Limits.{
  Within, Filled, Valid, Replayable, StageLoad, GoodStage, GoodJourney,
}
use load_observatory.Core.Validation.{
  ConfigError, check, is_outside, max_duration_seconds, max_model_tokens, exceeds,
  valid_scenario_task, check_tasks, bad_journey, check_journeys, bad_stage, check_stages, bad_event,
  check_events,
}

pub check-none :
    (bad : Bool) (error : ConfigError) (next : Option ConfigError)
    → check bad error next ≡ none
    → (bad ≡ false) × (next ≡ none)
unfolding check
check-none bad error next h = ground arith

pub no_test :
    (a b c d : Bool)
    → a || b || c || d ≡ false
    → (a ≡ false) × (b ≡ false) × (c ≡ false) × (d ≡ false)
no_test a b c d h = ground arith

pub Within-is_outside :
    (low high value : ℤ) → is_outside low high value ≡ false → Within low high value
unfolding is_outside
Within-is_outside low high value h = ground arith

Filled-eqb_text : (text : String) → eqb_text text "" ≡ false → Filled text
unfolding eqb_text
Filled-eqb_text text h = λ e. true≢false (sym ((eq_iff text "").1 e) ∙ h)

Valid-valid_scenario_task :
    (task : ScenarioTask) → not (valid_scenario_task task) ≡ false → Valid task
unfolding valid_scenario_task is_outside
Valid-valid_scenario_task task h = record {
  name = Filled-eqb_text task.name (ground arith);
  prompt = Filled-eqb_text task.prompt (ground arith);
  weight = (ground arith, ground arith);
  think_time = (ground arith, ground arith);
  max_tokens = (ground arith, ground arith);
  prompt_tokens = (ground arith, ground arith);
}

pub check_tasks-All :
    (error : ConfigError) (tasks : List ScenarioTask) (next : Option ConfigError)
    → check_tasks error tasks next ≡ none
    → All Valid tasks × (next ≡ none)
unfolding check_tasks
check_tasks-All error [] next h = (tt, h)
check_tasks-All error (task ∷ rest) next h =
    let (good, later) = check-none (not (valid_scenario_task task)) error _ h in
    let (all, after) = check_tasks-All error rest next later in
    ((Valid-valid_scenario_task task good, all), after)

pub GoodJourney-bad_journey :
    (journey : UserJourney)
    → bad_journey journey ≡ false
    → All Valid journey.scenario
    → GoodJourney journey
unfolding bad_journey
GoodJourney-bad_journey journey good tasks =
    let (name, weight, some_task, few) =
      no_test (eqb_text journey.name "") (is_outside (pos 1) (pos 100) journey.weight)
        (length journey.scenario == 0) (ltb 8 (length journey.scenario)) good in
    record {
      name = Filled-eqb_text journey.name name;
      weight = Within-is_outside _ _ _ weight;
      some_task = ground arith;
      few_tasks = ground arith;
      tasks = tasks;
    }

pub check_journeys-All :
    (journeys : List UserJourney) (next : Option ConfigError)
    → check_journeys journeys next ≡ none
    → All GoodJourney journeys × (next ≡ none)
unfolding check_journeys
check_journeys-All [] next h = (tt, h)
check_journeys-All (journey ∷ rest) next h =
    let (good, later) = check-none (bad_journey journey) ConfigError.invalid_journey _ h in
    let (tasks, others) =
      check_tasks-All ConfigError.invalid_journey_task journey.scenario _ later in
    let (all, after) = check_journeys-All rest next others in
    ((GoodJourney-bad_journey journey good tasks, all), after)

StageLoad-exceeds :
    (mode : LoadMode) (load : ℤ)
    → ltb_ℤ load (pos 1) ≡ false
    → exceeds mode load ≡ false
    → StageLoad mode load
StageLoad-exceeds LoadMode.vu load low high = ground arith
StageLoad-exceeds LoadMode.rps load low high = ground arith
StageLoad-exceeds (LoadMode.other mode) load low high = ground arith

GoodStage-bad_stage :
    (mode : LoadMode) (stage : LoadStage) → bad_stage mode stage ≡ false → GoodStage mode stage
unfolding bad_stage
GoodStage-bad_stage mode stage good =
    let (duration, load, below, _) =
      no_test (is_outside (pos 1) max_duration_seconds stage.duration_seconds)
        (ltb_ℤ stage.target_load (pos 1)) (exceeds mode stage.target_load) false (rw good refl) in
    (Within-is_outside _ _ _ duration, StageLoad-exceeds mode stage.target_load load below)

pub check_stages-All :
    (mode : LoadMode) (stages : List LoadStage) (next : Option ConfigError)
    → check_stages mode stages next ≡ none
    → All (GoodStage mode) stages × (next ≡ none)
unfolding check_stages bad_stage
check_stages-All mode [] next h = (tt, h)
check_stages-All mode (stage ∷ rest) next h =
    let (good, later) = check-none (bad_stage mode stage) ConfigError.invalid_stage _ h in
    let (all, after) = check_stages-All mode rest next later in
    ((GoodStage-bad_stage mode stage good, all), after)

pub check_events-Replayable :
    (previous : ℤ) (events : List TraceEvent) (next : Option ConfigError)
    → check_events previous events next ≡ none
    → Replayable previous events × (next ≡ none)
unfolding check_events bad_event
check_events-Replayable previous [] next h = (tt, h)
check_events-Replayable previous (event ∷ rest) next h =
    let (good, later) = check-none (bad_event previous event) ConfigError.invalid_trace_event _ h in
    let (all, after) = check_events-Replayable event.timestamp_millis rest next later in
    let (rising, prompt, tokens, short) =
      no_test (ltb_ℤ event.timestamp_millis previous)
        (is_outside (pos 0) max_model_tokens event.prompt_tokens)
        (is_outside (pos 0) max_model_tokens event.max_tokens) (ltb 200000 (len event.prompt))
        good in
    (
      (
        ground arith,
        Within-is_outside _ _ _ prompt,
        Within-is_outside _ _ _ tokens,
        ground arith,
        all,
      ),
      after,
    )
