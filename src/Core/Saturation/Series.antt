-- ===== src/Core/Saturation/Series.antt =====
-- What a series of internal/core/saturation.go knows of the samples: how many collected the metric, how
-- many of these are above zero, and whether any is. A sample without the metric counts for nothing.
use load_observatory.Prelude.{
  ℕ, suc, ◌+◌, ◌≡◌, refl, ◌∙◌, ap, Bool, true, false, ◌||◌, List, [], ◌∷◌, Option, none, some,
  arith, Bool-cases, Option-cases, pos, inl, inr, if◌then◌else◌,
}
use load_observatory.Prelude.Floats.{Floats}
use load_observatory.Core.Types.{MonitoringSample, Metric}
use load_observatory.Core.Saturation.{
  Samples, int, new_series, observe_value, observe, observe_all, series_of,
}

-- What holds of the comparison of floats. A NaN is not equal to itself and is above nothing.
pub record IsOrdered {F : Type 0} (fl : Floats F) : Type 0 where
  pub irreflexive : (a : F) → fl.lt a a ≡ false
  pub transitive : (a b c : F) → fl.lt a b ≡ true → fl.lt b c ≡ true → fl.lt a c ≡ true
  pub total :
      (a b c : F) → fl.eq b b ≡ true → fl.lt a c ≡ true → fl.lt b c ≡ false → fl.lt a b ≡ true
  pub above_number : (a b : F) → fl.lt a b ≡ true → fl.eq b b ≡ true
  pub zero_number : fl.eq (fl.of_int (pos 0)) (fl.of_int (pos 0)) ≡ true

module _ {F : Type 0} ⦃fl : Floats F⦄ where
  -- Whether a metric was collected, and whether it is above zero.
  abbrev pub is_collected : Option F → Bool
  is_collected none = false
  is_collected (some value) = true

  abbrev pub is_above : Option F → Bool
  is_above none = false
  is_above (some value) = fl.lt (int 0) value

  abbrev pub collected : Metric → List (MonitoringSample F) → ℕ
  collected key [] = 0
  collected key (sample ∷ rest) =
      let more = collected key rest in if is_collected (sample.metrics key) then suc more else more

  abbrev pub active : Metric → List (MonitoringSample F) → ℕ
  active key [] = 0
  active key (sample ∷ rest) =
      let more = active key rest in if is_above (sample.metrics key) then suc more else more

  abbrev pub any_above : Metric → List (MonitoringSample F) → Bool
  any_above key [] = false
  any_above key (sample ∷ rest) = is_above (sample.metrics key) || any_above key rest

  count-observe :
      (s : Samples F) (key : Metric) (sample : MonitoringSample F)
      → (observe s sample key).count
        ≡ (if is_collected (sample.metrics key) then suc s.count else s.count)
  unfolding observe observe_value
  count-observe s key sample = elim (Option-cases (sample.metrics key)) [
    | inl missing ↦ rw (missing, observe) refl
    | inr (v, there) ↦ rw (there, observe) refl
  ]

  non_zero-observe :
      (s : Samples F) (key : Metric) (sample : MonitoringSample F)
      → (observe s sample key).non_zero
        ≡ (if is_above (sample.metrics key) then suc s.non_zero else s.non_zero)
  unfolding observe observe_value
  non_zero-observe s key sample = elim (Option-cases (sample.metrics key)) [
    | inl missing ↦ rw (missing, observe) refl
    | inr (v, there) ↦ rw (there, observe) refl
  ]

  count-observe_all :
      (s : Samples F) (key : Metric) (samples : List (MonitoringSample F))
      → (observe_all s key samples).count ≡ s.count + collected key samples
  unfolding observe_all
  count-observe_all s key [] = omega arith
  count-observe_all s key (sample ∷ rest) =
      ground (arith, count-observe_all (observe s sample key) key rest, count-observe s key sample)

  non_zero-observe_all :
      (s : Samples F) (key : Metric) (samples : List (MonitoringSample F))
      → (observe_all s key samples).non_zero ≡ s.non_zero + active key samples
  unfolding observe_all
  non_zero-observe_all s key [] = omega arith
  non_zero-observe_all s key (sample ∷ rest) =
      ground
        (arith, non_zero-observe_all (observe s sample key) key rest, non_zero-observe s key sample)

  -- The next value keeps the peak a number, and lifts it above zero if it is above zero itself.
  peak-observe_value :
      IsOrdered fl
      → (s : Samples F) (value : F) → fl.eq s.peak s.peak ≡ true
      → (fl.lt (int 0) (observe_value s value).peak ≡ fl.lt (int 0) s.peak || fl.lt (int 0) value)
        × (fl.eq (observe_value s value).peak (observe_value s value).peak ≡ true)
  unfolding observe_value
  peak-observe_value laws s value number = elim (Bool-cases (fl.lt s.peak value)) [
    | inl up ↦
        rw up (
          lifts (λ h. laws.transitive (int 0) s.peak value h up),
          laws.above_number s.peak value up,
        )
    | inr down ↦ rw down (stays (λ h. laws.total (int 0) s.peak value number h down), number)
  ]
    where
      lifts :
          (fl.lt (int 0) s.peak ≡ true → fl.lt (int 0) value ≡ true)
          → fl.lt (int 0) value ≡ fl.lt (int 0) s.peak || fl.lt (int 0) value
      lifts h = ground (arith, h)

      stays :
          (fl.lt (int 0) value ≡ true → fl.lt (int 0) s.peak ≡ true)
          → fl.lt (int 0) s.peak ≡ fl.lt (int 0) s.peak || fl.lt (int 0) value
      stays h = ground (arith, h)

  peak-observe :
      IsOrdered fl
      → (s : Samples F) (key : Metric) (sample : MonitoringSample F) → fl.eq s.peak s.peak ≡ true
      → (fl.lt (int 0) (observe s sample key).peak
          ≡ fl.lt (int 0) s.peak || is_above (sample.metrics key))
        × (fl.eq (observe s sample key).peak (observe s sample key).peak ≡ true)
  unfolding observe
  peak-observe laws s key sample number = elim (Option-cases (sample.metrics key)) [
    | inl missing ↦ rw (missing, observe) (ground arith, number)
    | inr (v, there) ↦ rw (there, observe) (peak-observe_value laws s v number)
  ]

  peak-observe_all :
      IsOrdered fl
      → (s : Samples F) (key : Metric) (samples : List (MonitoringSample F))
      → fl.eq s.peak s.peak ≡ true
      → fl.lt (int 0) (observe_all s key samples).peak
        ≡ fl.lt (int 0) s.peak || any_above key samples
  unfolding observe_all
  peak-observe_all laws s key [] number = ground arith
  peak-observe_all laws s key (sample ∷ rest) number =
      let (above, still) = peak-observe laws s key sample number in
      peak-observe_all laws (observe s sample key) key rest still
      ∙ ap (λ b. b || any_above key rest) above
      ∙ or_assoc (fl.lt (int 0) s.peak) (is_above (sample.metrics key)) (any_above key rest)
    where
      or_assoc : (a b c : Bool) → ((a || b) || c) ≡ (a || (b || c))
      or_assoc a b c = ground arith

  -- The count of a series is the number of samples that collected the metric.
  pub count-series_of :
      (key : Metric) (samples : List (MonitoringSample F))
      → (series_of key samples).count ≡ collected key samples
  unfolding series_of new_series
  count-series_of key samples = omega (arith, count-observe_all new_series key samples)

  pub non_zero-series_of :
      (key : Metric) (samples : List (MonitoringSample F))
      → (series_of key samples).non_zero ≡ active key samples
  unfolding series_of new_series
  non_zero-series_of key samples = omega (arith, non_zero-observe_all new_series key samples)

  -- The peak is above zero exactly when a sample collected a value above zero.
  pub peak-series_of :
      IsOrdered fl
      → (key : Metric) (samples : List (MonitoringSample F))
      → fl.lt (int 0) (series_of key samples).peak ≡ any_above key samples
  unfolding series_of new_series
  peak-series_of laws key samples =
      peak-observe_all laws new_series key samples laws.zero_number
      ∙ ap (λ b. b || any_above key samples) (laws.irreflexive (int 0))
