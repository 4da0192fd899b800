-- ===== src/Core/Saturation/Trusted.antt =====
-- AssessRunValidity (internal/core/saturation.go), described by the samples alone.
use load_observatory.Prelude.{
  ℕ, zero, suc, ltb, leb, ◌==◌, ◌≡◌, refl, ◌↔◌, Bool, true, false, ◌&&◌, ◌||◌, not, List, [], arith,
  Bool-cases, inl, inr, if◌then◌else◌,
}
use mathlib.Core.Bool.{true≢false}
use mathlib.Core.List.{concat-ne-nil}
use load_observatory.Prelude.Floats.{Floats}
use load_observatory.Core.Types.{MonitoringSample, Metric, RunConfig, CachePolicy}
use load_observatory.Core.Saturation.{
  Doubt, RunValidity, int, series_of, mean, decline_percent, add_if, cache_mismatch,
  assess_run_validity,
}
use load_observatory.Core.Saturation.Series.{
  IsOrdered, collected, any_above, count-series_of, peak-series_of,
}
use load_observatory.Core.Saturation.Values.{values, highest, final, total, series_of-Reads}

module _ {F : Type 0} ⦃fl : Floats F⦄ where
  -- Whether a sample shows that the hardware or the server did not do what it should.
  abbrev pub is_faulty : List (MonitoringSample F) → Bool
  is_faulty samples =
      any_above Metric.xid_errors samples
      || any_above Metric.power_violation_rate samples
      || any_above Metric.thermal_violation_rate samples
      || any_above Metric.corrupted_requests_rate samples

  -- Whether at least 3 samples read the clock, the highest of them is above zero, and the last of them is
  -- 5 percent or more of the highest below it.
  abbrev pub is_slowed : List (MonitoringSample F) → Bool
  is_slowed samples =
      let clock = values Metric.sm_clock_mhz samples in
      let peak = highest (int 0) clock in
      leb 3 (collected Metric.sm_clock_mhz samples)
      && not (fl.le peak (int 0))
      && fl.le (int 5) (fl.over (fl.times (fl.minus peak (final (int 0) clock)) (int 100)) peak)

  -- The rates of a policy that are held against a run: above a half to bypass the cache, below a fifth to
  -- reuse it.
  abbrev pub is_suspect : CachePolicy → F → Bool
  is_suspect CachePolicy.bypass rate = fl.lt (fl.over (int 1) (int 2)) rate
  is_suspect CachePolicy.reuse rate = fl.lt rate (fl.over (int 1) (int 5))
  is_suspect _ rate = false

  -- Whether the mean of the rates at which prompts hit the cache was against the policy.
  abbrev pub is_cached_wrongly : List (MonitoringSample F) → RunConfig F → Bool
  is_cached_wrongly samples config =
      let n = collected Metric.prefix_cache_hit_rate samples in
      ltb 0 n
      && is_suspect config.cache_policy
          (fl.over (total (int 0) (values Metric.prefix_cache_hit_rate samples)) (int n))

  slowed_cases :
      (n : ℕ) (peak drop : F)
      → fl.le (int 5) (int 0) ≡ false
      → fl.le (int 5) (if ltb n 3 || fl.le peak (int 0) then int 0 else drop)
        ≡ (leb 3 n && not (fl.le peak (int 0)) && fl.le (int 5) drop)
  slowed_cases n peak drop five = elim (Bool-cases (fl.le peak (int 0))) [
    | inl flat ↦ rw flat (elim (Bool-cases (ltb n 3)) [
      | inl few ↦ rw few (ground arith)
      | inr many ↦ rw many (ground arith)
    ])
    | inr up ↦ rw up (elim (Bool-cases (ltb n 3)) [
      | inl few ↦ rw few (ground arith)
      | inr many ↦ rw many (ground arith)
    ])
  ]

  is_suspect-cache_mismatch :
      (policy : CachePolicy) (rate : F) → cache_mismatch policy rate ≡ is_suspect policy rate
  unfolding cache_mismatch
  is_suspect-cache_mismatch CachePolicy.unset rate = refl
  is_suspect-cache_mismatch CachePolicy.mixed rate = refl
  is_suspect-cache_mismatch CachePolicy.bypass rate = refl
  is_suspect-cache_mismatch CachePolicy.reuse rate = refl
  is_suspect-cache_mismatch (CachePolicy.other policy) rate = refl

  suspect_cases :
      (n : ℕ) (policy : CachePolicy) (sum : F)
      → (ltb 0 n && cache_mismatch policy (if n == 0 then int 0 else fl.over sum (int n)))
        ≡ (ltb 0 n && is_suspect policy (fl.over sum (int n)))
  suspect_cases zero policy sum = refl
  suspect_cases (suc n) policy sum =
      let some_rate : (suc n == 0) ≡ false = ground arith in
      rw (some_rate, is_suspect-cache_mismatch policy (fl.over sum (int (suc n)))) refl

  is_slowed_lem :
      fl.le (int 5) (int 0) ≡ false
      → (samples : List (MonitoringSample F))
      → fl.le (int 5) (decline_percent (series_of Metric.sm_clock_mhz samples)) ≡ is_slowed samples
  unfolding decline_percent
  is_slowed_lem five samples =
      let (peak, last, _) = series_of-Reads Metric.sm_clock_mhz samples in
      rw (count-series_of Metric.sm_clock_mhz samples, peak, last)
        (slowed_cases (collected Metric.sm_clock_mhz samples) _ _ five)

  is_cached_wrongly_lem :
      (samples : List (MonitoringSample F)) (config : RunConfig F)
      → (ltb 0 (collected Metric.prefix_cache_hit_rate samples)
          && cache_mismatch config.cache_policy
              (mean (series_of Metric.prefix_cache_hit_rate samples)))
        ≡ is_cached_wrongly samples config
  unfolding mean
  is_cached_wrongly_lem samples config =
      let (_, _, sum) = series_of-Reads Metric.prefix_cache_hit_rate samples in
      rw (count-series_of Metric.prefix_cache_hit_rate samples, sum)
        (suspect_cases (collected Metric.prefix_cache_hit_rate samples) config.cache_policy _)

  -- A run is trustworthy as long as no reason was added.
  abbrev pub Settles : Bool → RunValidity F → Type 0
  Settles doubtful validity =
      (validity.trustworthy ≡ not doubtful) × ((validity.reasons ≡ []) ↔ (doubtful ≡ false))

  Settles-add_if :
      (test doubtful : Bool) (reason : Doubt F) (validity : RunValidity F)
      → Settles doubtful validity
      → Settles (doubtful || test) (add_if test reason validity)
  unfolding add_if
  Settles-add_if false doubtful reason validity h = rw (or_false doubtful) h
    where
      or_false : (b : Bool) → (b || false) ≡ b
      or_false b = ground arith
  Settles-add_if true doubtful reason validity h =
      rw (or_true doubtful)
        (refl, (λ e. absurd (concat-ne-nil reason validity.reasons e), λ e. absurd (true≢false e)))
    where
      or_true : (b : Bool) → (b || true) ≡ true
      or_true b = ground arith

  judged :
      IsOrdered fl
      → (samples : List (MonitoringSample F)) (config : RunConfig F)
      → Settles
          (is_faulty samples
            || fl.le (int 5) (decline_percent (series_of Metric.sm_clock_mhz samples))
            || (ltb 0 (collected Metric.prefix_cache_hit_rate samples)
                && cache_mismatch config.cache_policy
                    (mean (series_of Metric.prefix_cache_hit_rate samples))))
          (assess_run_validity samples config)
  unfolding assess_run_validity
  judged laws samples config =
      rw
        (
          ← peak-series_of laws Metric.xid_errors samples,
          ← peak-series_of laws Metric.power_violation_rate samples,
          ← peak-series_of laws Metric.thermal_violation_rate samples,
          ← peak-series_of laws Metric.corrupted_requests_rate samples,
          ← count-series_of Metric.prefix_cache_hit_rate samples,
        )
        (Settles-add_if _ _ _ _ (
          Settles-add_if _ _ _ _ (
            Settles-add_if _ _ _ _ (
              Settles-add_if _ _ _ _ (
                Settles-add_if _ _ _ _ (
                  Settles-add_if (fl.lt (int 0) (series_of Metric.xid_errors samples).peak) false _
                    (record { trustworthy = true; reasons = [] })
                    (refl, (λ e. refl, λ e. refl))))))))

  -- If floats compare as they do, and 5 is above 0: a run is trustworthy, and no reason is listed, exactly
  -- if no sample reports an XID error, a power or thermal violation or a corrupted answer above zero; the
  -- SM clock was read in fewer than 3 samples, or never above zero, or the last reading is less than 5
  -- percent of the highest below it; and the mean rate of hits in the prefix cache is at most a half for
  -- the policy to bypass it and at least a fifth for the policy to reuse it, or was not collected.
  pub assess_run_validity-Settles :
      IsOrdered fl
      → fl.le (int 5) (int 0) ≡ false
      → (samples : List (MonitoringSample F)) (config : RunConfig F)
      → Settles
          (is_faulty samples || is_slowed samples || is_cached_wrongly samples config)
          (assess_run_validity samples config)
  assess_run_validity-Settles laws five samples config =
      rw (← is_slowed_lem five samples, ← is_cached_wrongly_lem samples config)
        (judged laws samples config)
