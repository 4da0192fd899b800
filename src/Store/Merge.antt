-- ===== src/Store/Merge.antt =====
-- internal/store/store.go: how CompleteShard merges the results of a run's shards, its helpers
-- (mergeDistribution, mergeTimelinePoint, mergeScenario, appendSamples, sortedTimeline) and the fields
-- that it derives at the end. The results come in the order in which `range s.shards` visits them.
pub mod Pieces
pub mod Totals
pub mod Order
pub mod Pooling
use load_observatory.Prelude.{
  ℤ, pos, ◌+ℤ◌, ltb_ℤ, eqb_ℤ, max_ℤ, if◌then◌else◌, Bool, true, false, ◌&&◌, ◌||◌, not, List, [],
  ◌∷◌, ◌++◌, Option, none, some, String,
}
use load_observatory.Prelude.Floats.{Floats}
use load_observatory.Core.Types.{
  RunConfig, RunResult, RunSamples, ScenarioResult, TimelinePoint, Distribution,
}
use load_observatory.Stats.{zero_distribution, distribution}
use load_observatory.Store.Zero.{zero_result}
use Pieces.{
  no_samples, append_samples, append_option, merge_distribution, merge_counts, merge_points,
  sorted_timeline, Step, merge_steps, pooled_or,
}

-- The variables of the loop.
pub record Merge (F : Type 0) : Type 0 where
  pub merged : RunResult F
  pub distribution_weight : ℤ
  pub generator_weight : ℤ
  pub timeline : List TimelinePoint
  pub steps : List (Step F)
  pub pooled : RunSamples
  pub pooled_any : Bool

module _ {F : Type 0} ⦃fl : Floats F⦄ where
  unfoldable pub start : Merge F
  unfolding no_samples
  start = record {
    merged = zero_result;
    distribution_weight = pos 0;
    generator_weight = pos 0;
    timeline = [];
    steps = [];
    pooled = no_samples;
    pooled_any = false;
  }

  -- `weight := value.SteadySamples; if weight == 0 { weight = value.Successes }`
  unfoldable pub weight_of : RunResult F → ℤ
  weight_of value =
      if eqb_ℤ value.steady_samples (pos 0) then value.successes else value.steady_samples

  -- The five distributions, weighted, if the weight is positive.
  unfoldable pub weigh : ℤ → ℤ → RunResult F → RunResult F → RunResult F
  weigh before weight merged value =
      if ltb_ℤ (pos 0) weight
      then record merged {
        latency = merge_distribution merged.latency value.latency before weight;
        ttft = merge_distribution merged.ttft value.ttft before weight;
        ttfo = merge_distribution merged.ttfo value.ttfo before weight;
        itl = merge_distribution merged.itl value.itl before weight;
        tpot = merge_distribution merged.tpot value.tpot before weight;
      }
      else merged

  -- Goodput is weighted by everything that finished.
  unfoldable pub add_goodput : RunResult F → RunResult F → F
  add_goodput merged value =
      if ltb_ℤ (pos 0) value.successes
      then fl.plus merged.goodput_percent (fl.times value.goodput_percent (fl.of_int value.total))
      else merged.goodput_percent

  -- The body of the loop.
  unfoldable pub merge_one : Merge F → RunResult F → Merge F
  unfolding weight_of weigh add_goodput
  merge_one m value =
      let counted = record (merge_counts m.merged value) {
        generator_delay =
            merge_distribution m.merged.generator_delay value.generator_delay m.generator_weight
              value.total;
        goodput_percent = add_goodput m.merged value;
      } in
      let weight = weight_of value in
      record {
        merged = weigh m.distribution_weight weight counted value;
        distribution_weight =
            if ltb_ℤ (pos 0) weight then m.distribution_weight +ℤ weight else m.distribution_weight;
        generator_weight = m.generator_weight +ℤ value.total;
        timeline = merge_points m.timeline value.timeline;
        steps = merge_steps m.steps value.scenarios;
        pooled = append_option m.pooled value.samples;
        pooled_any = elim value.samples [ none ↦ m.pooled_any | some samples ↦ true ];
      }

  unfoldable pub merge_all : Merge F → List (RunResult F) → Merge F
  merge_all m [] = m
  merge_all m (value ∷ rest) = merge_all (merge_one m value) rest

  percent : ℤ → ℤ → F
  percent part whole = fl.over (fl.times (fl.of_int part) (fl.of_int (pos 100))) (fl.of_int whole)

  -- One scenario at the end: its completion rate, and pooled distributions if it has samples.
  unfoldable pub finish_step : Step F → ScenarioResult F
  unfolding percent
  finish_step step =
      let result = step.result in
      record result {
        completion_percent =
            if ltb_ℤ (pos 0) result.issued
            then percent result.completed result.issued
            else result.completion_percent;
        latency = pooled_or step.samples.latency step.samples.latency result.latency;
        ttft = pooled_or step.samples.latency step.samples.ttft result.ttft;
        samples = none;
      }

  finish_steps : List (Step F) → List (ScenarioResult F)
  finish_steps [] = []
  finish_steps (step ∷ rest) = finish_step step ∷ finish_steps rest

  -- `if pooledAny`: every distribution over the pooled samples.
  unfoldable pub pool : RunSamples → RunResult F → RunResult F
  pool samples merged = record merged {
    latency = Pieces.distribution_of samples.latency;
    ttft = Pieces.distribution_of samples.ttft;
    ttfo = Pieces.distribution_of samples.ttfo;
    itl = Pieces.distribution_of samples.itl;
    tpot = Pieces.distribution_of samples.tpot;
    latency_scope = "pooled_samples";
  }

  -- The fields that are derived after the loop.
  unfoldable pub derive : RunConfig F → Bool → RunResult F → RunResult F
  unfolding percent
  derive config pooled_any merged =
      let seconds = config.duration_seconds in
      let timed = ltb_ℤ (pos 0) seconds in
      record merged {
        p95_millis = merged.latency.p95_millis;
        ttft_p95_millis = merged.ttft.p95_millis;
        goodput_percent =
            if ltb_ℤ (pos 0) merged.total
            then fl.over merged.goodput_percent (fl.of_int merged.total)
            else merged.goodput_percent;
        completion_percent =
            if ltb_ℤ (pos 0) merged.issued
            then percent merged.completed merged.issued
            else merged.completion_percent;
        latency_scope =
            if ltb_ℤ (pos 1) config.shards && not pooled_any
            then "worst_shard_p95"
            else merged.latency_scope;
        throughput_rps =
            if timed
            then fl.over (fl.of_int merged.total) (fl.of_int seconds)
            else merged.throughput_rps;
        tokens = record (merged.tokens) {
          output_per_second =
              if timed
              then fl.over (fl.of_int merged.tokens.completion) (fl.of_int seconds)
              else merged.tokens.output_per_second;
        };
        samples = none;
      }

  -- The timeline, the pooled distributions and the scenarios of the whole loop.
  unfoldable pub assemble : Merge F → RunResult F
  unfolding finish_steps
  assemble m =
      let listed = record (m.merged) { timeline = sorted_timeline m.timeline } in
      let pooled = if m.pooled_any then pool m.pooled listed else listed in
      record pooled { scenarios = finish_steps m.steps }

  unfoldable pub merge_results : RunConfig F → List (RunResult F) → RunResult F
  merge_results config values =
      let m = merge_all start values in derive config m.pooled_any (assemble m)
