-- ===== src/Store/Merge/Pooling.antt =====
-- The distributions of a merged result (internal/store/store.go: CompleteShard) when the shards send
-- their samples: those of all the samples together, and not a mean of the shards' percentiles.
use load_observatory.Prelude.{
  ℤ, ◌≡◌, refl, ◌∙◌, ap, sym, Bool, true, false, List, [], ◌∷◌, ◌++◌, Option, none, some, arith,
  if◌then◌else◌,
}
use mathlib.Core.List.{append-nil, append_assoc}
use load_observatory.Prelude.Floats.{Floats}
use load_observatory.Core.Types.{RunConfig, RunResult, RunSamples, Distribution}
use load_observatory.Store.Merge.{
  Merge, start, merge_one, merge_all, pool, derive, assemble, merge_results,
}
use load_observatory.Store.Merge.Pieces.{no_samples, append_samples, append_option, distribution_of}

pub data Metric : Type 0 where
  latency ttft ttfo itl tpot : Metric

abbrev pub samples_by : Metric → RunSamples → List ℤ
samples_by latency samples = samples.latency
samples_by ttft samples = samples.ttft
samples_by ttfo samples = samples.ttfo
samples_by itl samples = samples.itl
samples_by tpot samples = samples.tpot

-- Nothing is sent by a shard without samples.
abbrev pub sent : Metric → Option RunSamples → List ℤ
sent metric none = []
sent metric (some samples) = samples_by metric samples

abbrev pub has_samples : Option RunSamples → Bool
has_samples none = false
has_samples (some samples) = true

sent-append_option :
    (metric : Metric) (into : RunSamples) (from : Option RunSamples)
    → samples_by metric (append_option into from) ≡ samples_by metric into ++ sent metric from
unfolding append_option append_samples
sent-append_option metric into none = sym (append-nil (samples_by metric into))
sent-append_option metric into (some from) = ground arith

module _ {F : Type 0} where
  abbrev pub distribution_by : Metric → RunResult F → Distribution
  distribution_by latency result = result.latency
  distribution_by ttft result = result.ttft
  distribution_by ttfo result = result.ttfo
  distribution_by itl result = result.itl
  distribution_by tpot result = result.tpot

  -- The samples of all the shards, one after the other.
  abbrev pub all_samples : Metric → List (RunResult F) → List ℤ
  all_samples metric [] = []
  all_samples metric (value ∷ rest) = sent metric value.samples ++ all_samples metric rest

  -- Whether some shard sent its samples.
  abbrev pub any_samples : List (RunResult F) → Bool
  any_samples [] = false
  any_samples (value ∷ rest) = if has_samples value.samples then true else any_samples rest

module _ {F : Type 0} ⦃fl : Floats F⦄ where
  samples-merge_all :
      (metric : Metric) (m : Merge F) (values : List (RunResult F))
      → samples_by metric (merge_all m values).pooled
        ≡ samples_by metric m.pooled ++ all_samples metric values
  unfolding merge_all merge_one
  samples-merge_all metric m [] = sym (append-nil (samples_by metric m.pooled))
  samples-merge_all metric m (value ∷ rest) =
      samples-merge_all metric (merge_one m value) rest
      ∙ ap (λ xs. xs ++ all_samples metric rest) (sent-append_option metric m.pooled value.samples)
      ∙ append_assoc (samples_by metric m.pooled) (sent metric value.samples)
          (all_samples metric rest)

  pooled-merge_all :
      (m : Merge F) (values : List (RunResult F))
      → (merge_all m values).pooled_any ≡ (if m.pooled_any then true else any_samples values)
  unfolding merge_all merge_one
  pooled-merge_all m [] = ground arith
  pooled-merge_all m (value ∷ rest) =
      pooled-merge_all (merge_one m value) rest ∙ at_first value.samples m.pooled_any
    where
      at_first :
          (samples : Option RunSamples) (before : Bool)
          → (if (elim samples [ none ↦ before | some _ ↦ true ]) then true else any_samples rest)
            ≡ (if before then true else if has_samples samples then true else any_samples rest)
      at_first none before = refl
      at_first (some samples) before = ground arith

  distribution-assemble :
      (metric : Metric) (m : Merge F)
      → m.pooled_any ≡ true
      → distribution_by metric (assemble m) ≡ distribution_of (samples_by metric m.pooled)
  unfolding assemble pool
  distribution-assemble metric m any = rw (any, assemble) (ground arith)

  distribution-derive :
      (metric : Metric) (config : RunConfig F) (pooled : Bool) (merged : RunResult F)
      → distribution_by metric (derive config pooled merged) ≡ distribution_by metric merged
  unfolding derive
  distribution-derive metric config pooled merged = ground arith

  -- If some shard sent samples, each distribution of the merged result is that of the samples of all
  -- the shards together, and the two P95 fields are read off these distributions.
  pub merge_results-Pooled :
      (config : RunConfig F) (values : List (RunResult F))
      → any_samples values ≡ true
      → ((metric : Metric)
          → distribution_by metric (merge_results config values)
            ≡ distribution_of (all_samples metric values))
        × ((merge_results config values).p95_millis
            ≡ (distribution_of (all_samples latency values)).p95_millis)
        × ((merge_results config values).ttft_p95_millis
            ≡ (distribution_of (all_samples ttft values)).p95_millis)
  unfolding merge_results start no_samples derive
  merge_results-Pooled config values any =
      let m = merge_all start values in
      let each : (metric : Metric)
          → distribution_by metric (assemble m) ≡ distribution_of (all_samples metric values) =
        λ metric.
          distribution-assemble metric m (pooled-merge_all start values ∙ any)
          ∙ ap distribution_of (samples-merge_all metric start values ∙ from_start metric) in
      (
        λ metric. distribution-derive metric config m.pooled_any (assemble m) ∙ each metric,
        ap (λ d. d.p95_millis) (each latency),
        ap (λ d. d.p95_millis) (each ttft),
      )
    where
      from_start :
          (metric : Metric)
          → samples_by metric no_samples ++ all_samples metric values ≡ all_samples metric values
      from_start metric = ground arith
