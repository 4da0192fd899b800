-- ===== src/Core/Validation/Accepted.antt =====
-- What ValidateRunConfig and ValidateAutoSearchConfig (internal/core) let through.
use mathlib.Core.Option.{some-ne-none}
use load_observatory.Prelude.{
  ℤ, pos, negsuc, pos_part, ltb_ℤ, ◌≡◌, refl, false, [], Option, none, some, arith,
}
use load_observatory.Prelude.Floats.{Floats}
use load_observatory.Core.Types.{RunConfig, LoadMode, AutoSearchConfig}
use load_observatory.Core.Ladder.{sweep_ladder}
use load_observatory.Core.Ladder.Bounds.{AtMostDoubling, sweep_ladder_resolution}
use load_observatory.Core.Validation.{
  ConfigError, is_outside, exceeds, check_rest, validate_run_config, validate_auto_search_config,
  check_search,
}
use load_observatory.Core.Validation.Limits.{LoadWithin, IsAccepted}
use load_observatory.Core.Validation.Parts.{
  Known-unknown_policy, Sessions-bad_sessions, check_mode-Within, check_parts-All,
  Replays-check_trace, nothing,
}
use load_observatory.Core.Validation.Loops.{check-none, no_test, Within-is_outside}

module _ {F : Type 0} ⦃fl : Floats F⦄ where
  -- A run configuration that ValidateRunConfig accepts has every number that the function checks within
  -- its bounds, a known cache policy, a steady state shorter than the run and sessions only for an agent
  -- workflow of virtual users; its trace is replayed at a rate, its timestamps do not fall and it ends
  -- before the run does; and its stages, tasks and journeys are few enough, named and within their bounds.
  pub validate_run_config-IsAccepted :
      (config : RunConfig F) → validate_run_config config ≡ none → IsAccepted config
  unfolding validate_run_config check_rest
  validate_run_config-IsAccepted config h =
      let (duration, h1) = check-none _ _ _ h in
      let (load, h2) = check_mode-Within config config.mode _ h1 in
      let (tokens, h3) = check-none _ _ _ h2 in
      let (policy, h4) = check-none _ _ _ h3 in
      let (variation, h5) = check-none _ _ _ h4 in
      let (shards, h6) = check-none _ _ _ h5 in
      let (in_flight, h7) = check-none _ _ _ h6 in
      let (both, h8) = check-none _ _ _ h7 in
      let (warmup, cooldown, _, _) =
        no_test (is_outside (pos 0) (pos 1000) config.warmup_requests)
          (is_outside (pos 0) (pos 300) config.cooldown_seconds) false false (rw both refl) in
      let (guardrail, h9) = check-none _ _ _ h8 in
      let (drain, h10) = check-none _ _ _ h9 in
      let (completion, h11) = check-none _ _ _ h10 in
      let (steady, h12) = check-none _ _ _ h11 in
      let (sessions, h13) = check-none _ _ _ h12 in
      let (trace, replay, h14) = Replays-check_trace config config.trace _ h13 in
      let ((few, some_tasks, some_journeys), stages, tasks, journeys) =
        check_parts-All config h14 in
      record {
        duration = Within-is_outside _ _ _ duration;
        load = load;
        tokens = Within-is_outside _ _ _ tokens;
        policy = Known-unknown_policy config.cache_policy policy;
        variation = Within-is_outside _ _ _ variation;
        shards = Within-is_outside _ _ _ shards;
        in_flight = Within-is_outside _ _ _ in_flight;
        warmup = Within-is_outside _ _ _ warmup;
        cooldown = Within-is_outside _ _ _ cooldown;
        goodput = (ground arith, ground arith);
        tpot = ground arith;
        drain = Within-is_outside _ _ _ drain;
        completion = (ground arith, ground arith);
        steady = ground arith;
        sessions = Sessions-bad_sessions config sessions;
        trace = trace;
        replay = replay;
        few_stages = few;
        few_tasks = some_tasks;
        few_journeys = some_journeys;
        stages = stages;
        tasks = tasks;
        journeys = journeys;
      }

  resolution-exceeds :
      (mode : LoadMode) (config : RunConfig F) (start end : ℤ)
      → LoadWithin config mode
      → ltb_ℤ start (pos 1) ≡ false
      → ltb_ℤ end start ≡ false
      → exceeds mode end ≡ false
      → AtMostDoubling (pos_part start) (sweep_ladder start end)
  resolution-exceeds mode config (negsuc s) end load low order top = absurd (ground arith)
  resolution-exceeds mode config (pos s) (negsuc e) load low order top = absurd (ground arith)
  resolution-exceeds LoadMode.vu config (pos s) (pos e) load low order top =
      sweep_ladder_resolution s e (ground arith) (ground arith) (ground arith)
  resolution-exceeds LoadMode.rps config (pos s) (pos e) load low order top =
      sweep_ladder_resolution s e (ground arith) (ground arith) (ground arith)
  resolution-exceeds (LoadMode.other mode) config (pos s) (pos e) load low order top = absurd load

  AtMostDoubling-check_search :
      (config : AutoSearchConfig F) (verdict : Option ConfigError)
      → validate_run_config config.run ≡ verdict
      → check_search config verdict ≡ none
      → IsAccepted config.run
        × (config.run.trace ≡ [])
        × AtMostDoubling
            (pos_part config.start_load)
            (sweep_ladder config.start_load config.max_load)
  unfolding check_search
  AtMostDoubling-check_search config (some error) e h = absurd (some-ne-none error h)
  AtMostDoubling-check_search config none e h =
      let accepted = validate_run_config-IsAccepted config.run e in
      let (untraced, h1) = check-none _ _ _ h in
      let (order, h2) = check-none _ _ _ h1 in
      let (top, h3) = check-none _ _ _ h2 in
      let (low, high, _, _) =
        no_test (ltb_ℤ config.start_load (pos 1)) (ltb_ℤ config.max_load config.start_load) false
          false (rw order refl) in
      (
        accepted,
        nothing config.run.trace untraced,
        resolution-exceeds config.run.mode config.run config.start_load config.max_load
            accepted.load low high top,
      )

  -- A search that ValidateAutoSearchConfig accepts has an acceptable run without a trace, and a ladder on
  -- which no rung is more than twice the rung before it.
  pub validate_auto_search_config-AtMostDoubling :
      (config : AutoSearchConfig F)
      → validate_auto_search_config config ≡ none
      → IsAccepted config.run
        × (config.run.trace ≡ [])
        × AtMostDoubling
            (pos_part config.start_load)
            (sweep_ladder config.start_load config.max_load)
  unfolding validate_auto_search_config
  validate_auto_search_config-AtMostDoubling config h =
      AtMostDoubling-check_search config (validate_run_config config.run) refl h
