-- ===== src/Core/Saturation/Values.antt =====
-- The values that the samples of a run collected for a metric, and what a series of
-- internal/core/saturation.go is in terms of them.
use load_observatory.Prelude.{
  ◌≡◌, refl, sym, subst, if◌then◌else◌, List, [], ◌∷◌, Option-cases, none, some, inl, inr,
}
use load_observatory.Prelude.Floats.{Floats}
use load_observatory.Core.Types.{MonitoringSample, Metric}
use load_observatory.Core.Saturation.{
  Samples, int, new_series, observe_value, observe, observe_all, series_of,
}

module _ {F : Type 0} ⦃fl : Floats F⦄ where
  -- What was collected for a metric, in the order of the samples.
  abbrev pub values : Metric → List (MonitoringSample F) → List F
  values key [] = []
  values key (sample ∷ rest) = elim (sample.metrics key) [
    | none ↦ values key rest
    | some value ↦ value ∷ values key rest
  ]

  abbrev pub highest : F → List F → F
  highest peak [] = peak
  highest peak (value ∷ rest) = highest (if fl.lt peak value then value else peak) rest

  abbrev pub final : F → List F → F
  final last [] = last
  final last (value ∷ rest) = final value rest

  abbrev pub total : F → List F → F
  total sum [] = sum
  total sum (value ∷ rest) = total (fl.plus sum value) rest

  -- The three numbers that a series keeps of the values.
  abbrev pub Reads : Samples F → Samples F → List F → Type 0
  Reads after s l =
      (after.peak ≡ highest s.peak l) × (after.last ≡ final s.last l) × (after.sum ≡ total s.sum l)

  observe-none :
      (s : Samples F) (key : Metric) (sample : MonitoringSample F)
      → sample.metrics key ≡ none
      → observe s sample key ≡ s
  unfolding observe
  observe-none s key sample missing = rw (missing, observe) refl

  observe-some :
      (s : Samples F) (key : Metric) (sample : MonitoringSample F) (value : F)
      → sample.metrics key ≡ some value
      → observe s sample key ≡ observe_value s value
  unfolding observe
  observe-some s key sample value there = rw (there, observe) refl

  observe_all-Reads :
      (s : Samples F) (key : Metric) (samples : List (MonitoringSample F))
      → Reads (observe_all s key samples) s (values key samples)
  unfolding observe_all observe_value
  observe_all-Reads s key [] = (refl, refl, refl)
  observe_all-Reads s key (sample ∷ rest) = elim (Option-cases (sample.metrics key)) [
    | inl missing ↦ rw missing (
        subst (λ t. Reads (observe_all t key rest) s (values key rest))
          (sym (observe-none s key sample missing)) (observe_all-Reads s key rest))
    | inr (v, there) ↦ rw there (
        subst (λ t. Reads (observe_all t key rest) s (v ∷ values key rest))
          (sym (observe-some s key sample v there))
          (observe_all-Reads (observe_value s v) key rest))
  ]

  pub series_of-Reads :
      (key : Metric) (samples : List (MonitoringSample F))
      → let l = values key samples in
        ((series_of key samples).peak ≡ highest (int 0) l)
        × ((series_of key samples).last ≡ final (int 0) l)
        × ((series_of key samples).sum ≡ total (int 0) l)
  unfolding series_of new_series
  series_of-Reads key samples = observe_all-Reads new_series key samples
