-- ===== src/Core/Validation/Parts.antt =====
-- What the single checks of ValidateRunConfig (internal/core/target.go) let through.
use mathlib.Core.Bool.{true≢false}
use mathlib.Core.Option.{some-ne-none}
use load_observatory.Prelude.{
  pos, negsuc, ltb_ℤ, ◌≡◌, refl, ap, Bool-cases, inl, inr, false, not, List, [], ◌∷◌, ◌++◌, ◌≤◌,
  length, Option, none, All, arith,
}
use load_observatory.Prelude.Floats.{Floats}
use load_observatory.Core.Types.{RunConfig, LoadMode, CachePolicy, TraceEvent}
use load_observatory.Core.Validation.{
  ConfigError, is_outside, is_empty, is_vu, is_rps, unknown_policy, last_timestamp, too_long,
  bad_sessions, check_mode, check_parts, check_trace,
}
use load_observatory.Core.Validation.Limits.{
  Valid, Replayable, GoodStage, GoodJourney, Known, LoadWithin, Sessions, Replays,
}
use load_observatory.Core.Validation.Loops.{
  check-none, no_test, Within-is_outside, check_tasks-All, check_journeys-All, check_stages-All,
  check_events-Replayable,
}

pub Known-unknown_policy : (policy : CachePolicy) → unknown_policy policy ≡ false → Known policy
Known-unknown_policy CachePolicy.unset h = tt
Known-unknown_policy CachePolicy.mixed h = tt
Known-unknown_policy CachePolicy.reuse h = tt
Known-unknown_policy CachePolicy.bypass h = tt
Known-unknown_policy (CachePolicy.other policy) h = absurd (true≢false h)

vu-is_vu : (mode : LoadMode) → not (is_vu mode) ≡ false → mode ≡ LoadMode.vu
vu-is_vu LoadMode.vu h = refl
vu-is_vu LoadMode.rps h = absurd (true≢false h)
vu-is_vu (LoadMode.other mode) h = absurd (true≢false h)

rps-is_rps : (mode : LoadMode) → not (is_rps mode) ≡ false → mode ≡ LoadMode.rps
rps-is_rps LoadMode.vu h = absurd (true≢false h)
rps-is_rps LoadMode.rps h = refl
rps-is_rps (LoadMode.other mode) h = absurd (true≢false h)

pub nothing : {A : Type 0} (xs : List A) → not (is_empty xs) ≡ false → xs ≡ []
nothing [] h = refl
nothing (x ∷ xs) h = absurd (true≢false h)

-- The last of the events is the one that the timestamp is of.
last_of :
    (first : TraceEvent) (rest : List TraceEvent)
    → (before : List TraceEvent) × (last : TraceEvent) × (first ∷ rest ≡ before ++ (last ∷ []))
      × (last_timestamp first.timestamp_millis rest ≡ last.timestamp_millis)
unfolding last_timestamp
last_of first [] = ([], first, refl, refl)
last_of first (next ∷ rest) =
    let (before, last, e, time) = last_of next rest in
    (first ∷ before, last, ap (λ l. first ∷ l) e, time)

module _ {F : Type 0} where
  pub Sessions-bad_sessions : (config : RunConfig F) → bad_sessions config ≡ false → Sessions config
  unfolding bad_sessions is_outside
  Sessions-bad_sessions config h = (
    (ground arith, ground arith),
    elim (Bool-cases (ltb_ℤ (pos 0) config.sessions_per_vu)) [
      | inl some_sessions ↦ inr (
        ground arith,
        vu-is_vu config.mode (ground arith),
        nothing config.journeys (ground arith),
      )
      | inr no_sessions ↦ inl (ground arith)
    ],
  )

  pub check_mode-Within :
      (config : RunConfig F) (mode : LoadMode) (next : Option ConfigError)
      → check_mode config mode next ≡ none
      → LoadWithin config mode × (next ≡ none)
  unfolding check_mode
  check_mode-Within config LoadMode.vu next h =
      let (good, later) = check-none _ _ _ h in (Within-is_outside _ _ _ good, later)
  check_mode-Within config LoadMode.rps next h =
      let (good, later) = check-none _ _ _ h in (Within-is_outside _ _ _ good, later)
  check_mode-Within config (LoadMode.other mode) next h = absurd (some-ne-none _ h)

  pub check_parts-All :
      (config : RunConfig F)
      → check_parts config ≡ none
      → ((length config.stages ≤ 12) × (length config.scenario ≤ 64) × (length config.journeys ≤ 5))
        × All (GoodStage config.mode) config.stages
        × All Valid config.scenario
        × All GoodJourney config.journeys
  unfolding check_parts
  check_parts-All config h =
      let (few, h1) = check-none _ _ _ h in
      let (stages, h2) = check_stages-All config.mode config.stages _ h1 in
      let (tasks, h3) = check_tasks-All ConfigError.invalid_task config.scenario _ h2 in
      let counts : (length config.stages ≤ 12)
          × (length config.scenario ≤ 64)
          × (length config.journeys ≤ 5) =
        (ground arith, ground arith, ground arith) in
      (counts, stages, tasks, (check_journeys-All config.journeys none h3).0)

module _ {F : Type 0} ⦃fl : Floats F⦄ where
  pub Replays-check_trace :
      (config : RunConfig F) (events : List TraceEvent) (next : Option ConfigError)
      → check_trace config events next ≡ none
      → Replayable (negsuc 0) events × Replays config events × (next ≡ none)
  unfolding check_trace too_long
  Replays-check_trace config [] next h = (tt, tt, h)
  Replays-check_trace config (event ∷ rest) next h =
      let (allowed, h1) = check-none _ _ _ h in
      let (small, h2) = check-none _ _ _ h1 in
      let (events, h3) = check_events-Replayable (negsuc 0) (event ∷ rest) _ h2 in
      let (short, after) = check-none _ _ _ h3 in
      let (mode, stages, shards, _) =
        no_test (not (is_rps config.mode)) (not (is_empty config.stages))
          (ltb_ℤ (pos 1) config.shards) false (rw allowed refl) in
      let (before, last, e, time) = last_of event rest in
      (
        events,
        (
          rps-is_rps config.mode mode,
          nothing config.stages stages,
          ground arith,
          ground arith,
          (ground arith, ground arith),
          (before, last, e, rw (← time) short),
        ),
        after,
      )
