-- ===== src/Controller/Defaults.antt =====
-- internal/controller/server.go: the defaults that createRun and createSearch fill in.
use load_observatory.Prelude.{
  ℕ, ℤ, pos, eqb_ℤ, over_ℤ, min_ℤ, if◌then◌else◌, Bool, true, false, ◌&&◌,
}
use load_observatory.Prelude.Floats.{Floats}
use load_observatory.Core.Types.{RunConfig, CachePolicy}

abbrev default_policy : CachePolicy → CachePolicy
default_policy CachePolicy.unset = CachePolicy.mixed
default_policy CachePolicy.mixed = CachePolicy.mixed
default_policy CachePolicy.reuse = CachePolicy.reuse
default_policy CachePolicy.bypass = CachePolicy.bypass
default_policy (CachePolicy.other policy) = CachePolicy.other policy

abbrev is_mixed : CachePolicy → Bool
is_mixed CachePolicy.mixed = true
is_mixed _ = false

abbrev or_default : ℤ → ℤ → ℤ
or_default value default = if eqb_ℤ value (pos 0) then default else value

module _ {F : Type 0} ⦃fl : Floats F⦄ where
  abbrev or_default_float : F → ℕ → F
  or_default_float value default =
      if fl.eq value (fl.of_int (pos 0)) then fl.of_int (pos default) else value

  unfoldable pub apply_workload_defaults : RunConfig F → RunConfig F
  apply_workload_defaults config =
      let policy = default_policy config.cache_policy in
      let fifth = over_ℤ config.duration_seconds (pos 5) in
      record config {
        cache_policy = policy;
        variation_percent =
            if is_mixed policy && eqb_ℤ config.variation_percent (pos 0)
            then pos 30
            else config.variation_percent;
        drain_seconds = or_default config.drain_seconds (min_ℤ (pos 120) fifth);
        steady_state_seconds =
            if eqb_ℤ config.steady_state_seconds (pos 0) && eqb_ℤ config.sessions_per_vu (pos 0)
            then min_ℤ (pos 60) fifth
            else config.steady_state_seconds;
        min_completion_percent = or_default_float config.min_completion_percent 95;
      }

  -- The defaults around applyWorkloadDefaults, the same in both handlers.
  unfoldable pub with_defaults : RunConfig F → RunConfig F
  with_defaults config =
      let filled = apply_workload_defaults (record config {
        max_tokens = or_default config.max_tokens (pos 4096);
        max_error_percent = or_default_float config.max_error_percent 2;
        max_p95_millis = or_default config.max_p95_millis (pos 2000);
      }) in
      record filled { shards = or_default filled.shards (pos 3) }
