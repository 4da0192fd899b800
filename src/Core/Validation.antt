-- ===== src/Core/Validation.antt =====
-- internal/core/target.go: ValidateRunConfig and validScenarioTask; internal/core/search.go:
-- ValidateAutoSearchConfig. `none` is Go's nil; an error is the constructor that names its text.
pub mod Limits
pub mod Loops
pub mod Parts
pub mod Accepted
use Prim.Native.String.{len}
use load_observatory.Prelude.{
  ℕ, ℤ, pos, negsuc, ltb_ℤ, eqb_ℤ, ltb, leb, ◌==◌, ◌-ℤ◌, times_ℤ, if◌then◌else◌, Bool, true, false,
  ◌&&◌, ◌||◌, not, List, [], ◌∷◌, Option, none, some, length, String,
}
use load_observatory.Prelude.Floats.{Floats}
use load_observatory.Core.Server.{eqb_text}
use load_observatory.Core.Types.{
  RunConfig, LoadMode, CachePolicy, LoadStage, TraceEvent, ScenarioTask, UserJourney,
  AutoSearchConfig,
}

pub data ConfigError : Type 0 where
  duration_out_of_range vus_out_of_range rps_out_of_range unknown_mode : ConfigError
  max_tokens_out_of_range unknown_cache_policy variation_out_of_range : ConfigError
  shards_out_of_range max_in_flight_out_of_range warmup_or_cooldown_out_of_range : ConfigError
  invalid_guardrail drain_out_of_range completion_out_of_range steady_state_too_long : ConfigError
  sessions_not_allowed trace_not_allowed trace_too_large invalid_trace_event : ConfigError
  trace_too_long too_many_parts invalid_stage invalid_task invalid_journey : ConfigError
  invalid_journey_task trace_in_search start_load_out_of_range max_load_too_high : ConfigError

abbrev pub max_vus : ℤ
max_vus = pos 500

abbrev pub max_rps : ℤ
max_rps = pos 2000

abbrev pub max_duration_seconds : ℤ
max_duration_seconds = pos 3600

abbrev pub max_model_tokens : ℤ
max_model_tokens = pos 1000000

-- `value < low || value > high`
unfoldable pub is_outside : ℤ → ℤ → ℤ → Bool
is_outside low high value = ltb_ℤ value low || ltb_ℤ high value

-- `if bad { return error }`, and what follows.
unfoldable pub check : Bool → ConfigError → Option ConfigError → Option ConfigError
check true error next = some error
check false error next = next

unfoldable pub valid_scenario_task : ScenarioTask → Bool
valid_scenario_task task =
    not (eqb_text task.name "")
    && not (eqb_text task.prompt "")
    && not (is_outside (pos 1) (pos 100) task.weight)
    && not (is_outside (pos 0) (pos 60000) task.think_time_millis)
    && not (is_outside (pos 0) max_model_tokens task.max_tokens)
    && not (is_outside (pos 0) max_model_tokens task.prompt_tokens)

-- The loop over the tasks of a scenario or of a journey.
unfoldable pub check_tasks :
    ConfigError → List ScenarioTask → Option ConfigError → Option ConfigError
check_tasks error [] next = next
check_tasks error (task ∷ rest) next =
    check (not (valid_scenario_task task)) error (check_tasks error rest next)

unfoldable pub bad_journey : UserJourney → Bool
bad_journey journey =
    eqb_text journey.name ""
    || is_outside (pos 1) (pos 100) journey.weight
    || (length journey.scenario == 0)
    || ltb 8 (length journey.scenario)

unfoldable pub check_journeys : List UserJourney → Option ConfigError → Option ConfigError
check_journeys [] next = next
check_journeys (journey ∷ rest) next =
    check (bad_journey journey) invalid_journey
      (check_tasks invalid_journey_task journey.scenario (check_journeys rest next))

-- A load above the mode's maximum.
abbrev pub exceeds : LoadMode → ℤ → Bool
exceeds LoadMode.vu load = ltb_ℤ max_vus load
exceeds LoadMode.rps load = ltb_ℤ max_rps load
exceeds (LoadMode.other mode) load = false

unfoldable pub bad_stage : LoadMode → LoadStage → Bool
bad_stage mode stage =
    is_outside (pos 1) max_duration_seconds stage.duration_seconds
    || ltb_ℤ stage.target_load (pos 1)
    || exceeds mode stage.target_load

unfoldable pub check_stages : LoadMode → List LoadStage → Option ConfigError → Option ConfigError
check_stages mode [] next = next
check_stages mode (stage ∷ rest) next =
    check (bad_stage mode stage) invalid_stage (check_stages mode rest next)

unfoldable pub bad_event : ℤ → TraceEvent → Bool
bad_event previous event =
    ltb_ℤ event.timestamp_millis previous
    || is_outside (pos 0) max_model_tokens event.prompt_tokens
    || is_outside (pos 0) max_model_tokens event.max_tokens
    || ltb 200000 (len event.prompt)

unfoldable pub check_events : ℤ → List TraceEvent → Option ConfigError → Option ConfigError
check_events previous [] next = next
check_events previous (event ∷ rest) next =
    check (bad_event previous event) invalid_trace_event
      (check_events event.timestamp_millis rest next)

-- The timestamp of the last of the events, which begin with this one.
unfoldable pub last_timestamp : ℤ → List TraceEvent → ℤ
last_timestamp timestamp [] = timestamp
last_timestamp timestamp (event ∷ rest) = last_timestamp event.timestamp_millis rest

abbrev pub is_empty {ℓ} : {A : Type ℓ} → List A → Bool
is_empty [] = true
is_empty (x ∷ xs) = false

abbrev pub is_vu : LoadMode → Bool
is_vu LoadMode.vu = true
is_vu _ = false

abbrev pub is_rps : LoadMode → Bool
is_rps LoadMode.rps = true
is_rps _ = false

abbrev pub unknown_policy : CachePolicy → Bool
unknown_policy (CachePolicy.other policy) = true
unknown_policy _ = false

module _ {F : Type 0} where
  unfoldable pub check_mode : RunConfig F → LoadMode → Option ConfigError → Option ConfigError
  check_mode config LoadMode.vu next =
      check (is_outside (pos 1) max_vus config.vus) vus_out_of_range next
  check_mode config LoadMode.rps next =
      check (is_outside (pos 1) max_rps config.rps) rps_out_of_range next
  check_mode config (LoadMode.other mode) next = some unknown_mode

  unfoldable pub bad_sessions : RunConfig F → Bool
  bad_sessions config =
      is_outside (pos 0) (pos 100) config.sessions_per_vu
      || (ltb_ℤ (pos 0) config.sessions_per_vu
          && (not config.agent_workflow
              || not (is_vu config.mode)
              || not (is_empty config.journeys)))

  -- The stages, the scenario and the journeys: the end of the function.
  unfoldable pub check_parts : RunConfig F → Option ConfigError
  check_parts config =
      check
        (ltb 12 (length config.stages)
          || ltb 64 (length config.scenario)
          || ltb 5 (length config.journeys))
        too_many_parts
        (check_stages config.mode config.stages
          (check_tasks invalid_task config.scenario (check_journeys config.journeys none)))

module _ {F : Type 0} ⦃fl : Floats F⦄ where
  abbrev pub int : ℕ → F
  int n = fl.of_int (pos n)

  abbrev pub is_outside_percent : F → Bool
  is_outside_percent value = fl.lt value (int 0) || fl.lt (int 100) value

  unfoldable pub too_long : RunConfig F → ℤ → Bool
  too_long config span =
      let scale =
        if fl.eq config.trace_time_scale (int 0) then int 1 else config.trace_time_scale in
      fl.le (fl.of_int (times_ℤ config.duration_seconds (pos 1000)))
        (fl.over (fl.of_int span) scale)

  -- `if len(config.Trace) > 0 { ... }`
  unfoldable pub check_trace :
      RunConfig F → List TraceEvent → Option ConfigError → Option ConfigError
  check_trace config [] next = next
  check_trace config (event ∷ rest) next =
      check
        (not (is_rps config.mode) || not (is_empty config.stages) || ltb_ℤ (pos 1) config.shards)
        trace_not_allowed
        (check
          (ltb 10000 (length (event ∷ rest))
            || fl.lt config.trace_time_scale (int 0)
            || fl.lt (int 100) config.trace_time_scale)
          trace_too_large
          (check_events (negsuc 0) (event ∷ rest) (
            check
              (too_long config
                (last_timestamp event.timestamp_millis rest -ℤ event.timestamp_millis))
              trace_too_long next)))

  -- The checks from the guardrails on.
  unfoldable pub check_rest : RunConfig F → Option ConfigError
  check_rest config =
      check
        (is_outside_percent config.min_goodput_percent || ltb_ℤ config.max_tpot_p95_millis (pos 0))
        invalid_guardrail
        (check (is_outside (pos 0) (pos 600) config.drain_seconds) drain_out_of_range (
          check (is_outside_percent config.min_completion_percent) completion_out_of_range (
            check
              (ltb_ℤ config.steady_state_seconds (pos 0)
                || not (ltb_ℤ config.steady_state_seconds config.duration_seconds))
              steady_state_too_long
              (check (bad_sessions config) sessions_not_allowed
                (check_trace config config.trace (check_parts config))))))

  unfoldable pub validate_run_config : RunConfig F → Option ConfigError
  validate_run_config config =
      check (is_outside (pos 1) max_duration_seconds config.duration_seconds) duration_out_of_range
        (check_mode config config.mode (
          check (is_outside (pos 1) max_model_tokens config.max_tokens) max_tokens_out_of_range (
            check (unknown_policy config.cache_policy) unknown_cache_policy (
              check (is_outside (pos 0) (pos 100) config.variation_percent) variation_out_of_range (
                check (is_outside (pos 0) (pos 64) config.shards) shards_out_of_range (
                  check (is_outside (pos 0) max_vus config.max_in_flight) max_in_flight_out_of_range
                    (check
                      (is_outside (pos 0) (pos 1000) config.warmup_requests
                        || is_outside (pos 0) (pos 300) config.cooldown_seconds)
                      warmup_or_cooldown_out_of_range (check_rest config))))))))

  -- What follows the verdict on the run.
  unfoldable pub check_search : AutoSearchConfig F → Option ConfigError → Option ConfigError
  check_search config (some error) = some error
  check_search config none = check (not (is_empty config.run.trace)) trace_in_search (
      check (ltb_ℤ config.start_load (pos 1) || ltb_ℤ config.max_load config.start_load)
        start_load_out_of_range
        (check (exceeds config.run.mode config.max_load) max_load_too_high none))

  unfoldable pub validate_auto_search_config : AutoSearchConfig F → Option ConfigError
  validate_auto_search_config config = check_search config (validate_run_config config.run)
