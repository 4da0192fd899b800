-- ===== src/Core/Validation/Limits.antt =====
-- The bounds of ValidateRunConfig (internal/core/target.go), said without its tests.
use Prim.Native.String.{len}
use load_observatory.Prelude.{
  suc, ◌≤◌, ℤ, pos, negsuc, times_ℤ, ◌-ℤ◌, ◌≤ℤ◌, ◌<ℤ◌, ◌≡◌, ◌⊎◌, if◌then◌else◌, true, false, List,
  [], ◌∷◌, ◌++◌, length, All, String,
}
use load_observatory.Prelude.Floats.{Floats}
use load_observatory.Core.Types.{
  RunConfig, LoadMode, CachePolicy, LoadStage, TraceEvent, ScenarioTask, UserJourney,
}
use load_observatory.Core.Validation.{max_vus, max_rps, max_duration_seconds, max_model_tokens}

-- A value within its bounds.
abbrev pub Within : ℤ → ℤ → ℤ → Type 0
Within low high value = (low ≤ℤ value) × (value ≤ℤ high)

abbrev pub Filled : String → Type 0
Filled text = ¬ (text ≡ "")

pub record Valid (task : ScenarioTask) : Type 0 where
  pub name : Filled task.name
  pub prompt : Filled task.prompt
  pub weight : Within (pos 1) (pos 100) task.weight
  pub think_time : Within (pos 0) (pos 60000) task.think_time_millis
  pub max_tokens : Within (pos 0) max_model_tokens task.max_tokens
  pub prompt_tokens : Within (pos 0) max_model_tokens task.prompt_tokens

-- From this timestamp on, the timestamps never fall, and the sizes are within their bounds.
abbrev pub Replayable : ℤ → List TraceEvent → Type 0
Replayable previous [] = Unit
Replayable previous (event ∷ rest) =
    (previous ≤ℤ event.timestamp_millis)
    × Within (pos 0) max_model_tokens event.prompt_tokens
    × Within (pos 0) max_model_tokens event.max_tokens
    × (len event.prompt ≤ 200000)
    × Replayable event.timestamp_millis rest

-- The load of a stage in a mode.
abbrev pub StageLoad : LoadMode → ℤ → Type 0
StageLoad LoadMode.vu load = Within (pos 1) max_vus load
StageLoad LoadMode.rps load = Within (pos 1) max_rps load
StageLoad (LoadMode.other mode) load = pos 1 ≤ℤ load

abbrev pub GoodStage : LoadMode → LoadStage → Type 0
GoodStage mode stage =
    Within (pos 1) max_duration_seconds stage.duration_seconds × StageLoad mode stage.target_load

pub record GoodJourney (journey : UserJourney) : Type 0 where
  pub name : Filled journey.name
  pub weight : Within (pos 1) (pos 100) journey.weight
  pub some_task : 1 ≤ length journey.scenario
  pub few_tasks : length journey.scenario ≤ 8
  pub tasks : All Valid journey.scenario

abbrev pub Known : CachePolicy → Type 0
Known (CachePolicy.other policy) = ⊥
Known _ = Unit

module _ {F : Type 0} where
  abbrev pub LoadWithin : RunConfig F → LoadMode → Type 0
  LoadWithin config LoadMode.vu = Within (pos 1) max_vus config.vus
  LoadWithin config LoadMode.rps = Within (pos 1) max_rps config.rps
  LoadWithin config (LoadMode.other mode) = ⊥

  -- Sessions are for an agent workflow of virtual users without journeys.
  abbrev pub Sessions : RunConfig F → Type 0
  Sessions config =
      Within (pos 0) (pos 100) config.sessions_per_vu
      × ((config.sessions_per_vu ≡ pos 0)
          ⊎ ((config.agent_workflow ≡ true) × (config.mode ≡ LoadMode.vu) × (config.journeys ≡ [])))

module _ {F : Type 0} ⦃fl : Floats F⦄ where
  -- A float that is neither below the one whole number nor above the other.
  abbrev pub Between : ℤ → ℤ → F → Type 0
  Between low high value =
      (fl.lt value (fl.of_int low) ≡ false) × (fl.lt (fl.of_int high) value ≡ false)

  -- A trace is replayed at a rate, by one shard without stages, and ends before the run does: the time
  -- from its first event to its last, over the scale, where 0 stands for 1.
  abbrev pub Replays : RunConfig F → List TraceEvent → Type 0
  Replays config [] = Unit
  Replays config (first ∷ rest) =
      (config.mode ≡ LoadMode.rps)
      × (config.stages ≡ [])
      × (config.shards ≤ℤ pos 1)
      × (suc (length rest) ≤ 10000)
      × Between (pos 0) (pos 100) config.trace_time_scale
      × ((before : List TraceEvent) × (last : TraceEvent) × (first ∷ rest ≡ before ++ (last ∷ []))
          × (fl.le (fl.of_int (times_ℤ config.duration_seconds (pos 1000))) (
                fl.over (fl.of_int (last.timestamp_millis -ℤ first.timestamp_millis)) (
                  if fl.eq config.trace_time_scale (fl.of_int (pos 0))
                  then fl.of_int (pos 1)
                  else config.trace_time_scale))
              ≡ false))

  -- A run configuration that an agent may be given.
  pub record IsAccepted (config : RunConfig F) : Type 0 where
    pub duration : Within (pos 1) max_duration_seconds config.duration_seconds
    pub load : LoadWithin config config.mode
    pub tokens : Within (pos 1) max_model_tokens config.max_tokens
    pub policy : Known config.cache_policy
    pub variation : Within (pos 0) (pos 100) config.variation_percent
    pub shards : Within (pos 0) (pos 64) config.shards
    pub in_flight : Within (pos 0) max_vus config.max_in_flight
    pub warmup : Within (pos 0) (pos 1000) config.warmup_requests
    pub cooldown : Within (pos 0) (pos 300) config.cooldown_seconds
    pub goodput : Between (pos 0) (pos 100) config.min_goodput_percent
    pub tpot : pos 0 ≤ℤ config.max_tpot_p95_millis
    pub drain : Within (pos 0) (pos 600) config.drain_seconds
    pub completion : Between (pos 0) (pos 100) config.min_completion_percent
    pub steady :
        (pos 0 ≤ℤ config.steady_state_seconds)
        × (config.steady_state_seconds <ℤ config.duration_seconds)
    pub sessions : Sessions config
    pub trace : Replayable (negsuc 0) config.trace
    pub replay : Replays config config.trace
    pub few_stages : length config.stages ≤ 12
    pub few_tasks : length config.scenario ≤ 64
    pub few_journeys : length config.journeys ≤ 5
    pub stages : All (GoodStage config.mode) config.stages
    pub tasks : All Valid config.scenario
    pub journeys : All GoodJourney config.journeys
