-- ===== src/Store/Merge/Totals.antt =====
-- The counters of a merged result (internal/store/store.go: CompleteShard): the sums over the shards.
use load_observatory.Prelude.{
  ℤ, pos, ◌+ℤ◌, +ℤ_parts, eq_of_parts, ltb_ℤ, ◌≡◌, refl, ◌∙◌, ap, sym, Bool, Bool-cases, inl, inr,
  List, [], ◌∷◌, map, arith,
}
use load_observatory.Prelude.Floats.{Floats}
use load_observatory.Core.Types.{RunConfig, RunResult}
use load_observatory.Stats.{sum}
use load_observatory.Store.Zero.{zero_result}
use load_observatory.Store.Merge.{
  Merge, start, weigh, weight_of, merge_one, merge_all, pool, derive, assemble, merge_results,
}
use load_observatory.Store.Merge.Pieces.{merge_counts}

-- The fields that count.
pub data Counter : Type 0 where
  successes failures total issued completed cancelled http_failures transport_errors : Counter
  dropped_arrivals agent_sessions completed_sessions steady_samples : Counter
  missing_usage_responses content_chunks prompt_tokens completion_tokens reasoning_tokens : Counter

module _ {F : Type 0} where
  abbrev pub counter : Counter → RunResult F → ℤ
  counter successes result = result.successes
  counter failures result = result.failures
  counter total result = result.total
  counter issued result = result.issued
  counter completed result = result.completed
  counter cancelled result = result.cancelled
  counter http_failures result = result.http_failures
  counter transport_errors result = result.transport_errors
  counter dropped_arrivals result = result.dropped_arrivals
  counter agent_sessions result = result.agent_sessions
  counter completed_sessions result = result.completed_sessions
  counter steady_samples result = result.steady_samples
  counter missing_usage_responses result = result.missing_usage_responses
  counter content_chunks result = result.content_chunks
  counter prompt_tokens result = result.tokens.prompt
  counter completion_tokens result = result.tokens.completion
  counter reasoning_tokens result = result.tokens.reasoning

+ℤ_assoc : (a b c : ℤ) → (a +ℤ b) +ℤ c ≡ a +ℤ (b +ℤ c)
+ℤ_assoc a b c =
    eq_of_parts _ _
      (omega (arith, +ℤ_parts a b, +ℤ_parts (a +ℤ b) c, +ℤ_parts b c, +ℤ_parts a (b +ℤ c)))

+ℤ_zero : (a : ℤ) → a +ℤ pos 0 ≡ a
+ℤ_zero a = eq_of_parts _ _ (omega (arith, +ℤ_parts a (pos 0)))

zero_+ℤ : (a : ℤ) → pos 0 +ℤ a ≡ a
zero_+ℤ a = eq_of_parts _ _ (omega (arith, +ℤ_parts (pos 0) a))

counter-start :
    (F : Type 0) ⦃fl : Floats F⦄ (c : Counter) → counter c (start {F = F}).merged ≡ pos 0
unfolding start zero_result
counter-start F c = ground arith

module _ {F : Type 0} ⦃fl : Floats F⦄ where
  counter-merge_counts :
      (c : Counter) (merged value : RunResult F)
      → counter c (merge_counts merged value) ≡ counter c merged +ℤ counter c value
  unfolding merge_counts
  counter-merge_counts c merged value = ground arith

  -- What is not a counter may be anything.
  counter-weigh :
      (c : Counter) (before weight : ℤ) (merged value : RunResult F)
      → counter c (weigh before weight merged value) ≡ counter c merged
  unfolding weigh
  counter-weigh c before weight merged value = elim (Bool-cases (ltb_ℤ (pos 0) weight)) [
    | inl weighed ↦ rw (weighed, weigh) (ground arith)
    | inr light ↦ rw (light, weigh) refl
  ]

  counter-merge_one :
      (c : Counter) (m : Merge F) (value : RunResult F)
      → counter c (merge_one m value).merged ≡ counter c m.merged +ℤ counter c value
  unfolding merge_one
  counter-merge_one c m value =
      counter-weigh c m.distribution_weight (weight_of value) _ value
      ∙ ground arith
      ∙ counter-merge_counts c m.merged value

  counter-merge_all :
      (c : Counter) (m : Merge F) (values : List (RunResult F))
      → counter c (merge_all m values).merged ≡ counter c m.merged +ℤ sum (map (counter c) values)
  unfolding merge_all sum
  counter-merge_all c m [] = sym (+ℤ_zero (counter c m.merged))
  counter-merge_all c m (value ∷ rest) =
      counter-merge_all c (merge_one m value) rest
      ∙ ap (λ n. n +ℤ sum (map (counter c) rest)) (counter-merge_one c m value)
      ∙ +ℤ_assoc (counter c m.merged) (counter c value) (sum (map (counter c) rest))

  counter-derive :
      (c : Counter) (config : RunConfig F) (pooled : Bool) (merged : RunResult F)
      → counter c (derive config pooled merged) ≡ counter c merged
  unfolding derive
  counter-derive c config pooled merged = ground arith

  counter-assemble : (c : Counter) (m : Merge F) → counter c (assemble m) ≡ counter c m.merged
  unfolding assemble pool
  counter-assemble c m = elim (Bool-cases m.pooled_any) [
    | inl any ↦ rw (any, assemble) (ground arith)
    | inr nothing ↦ rw (nothing, assemble) (ground arith)
  ]

  -- Each counter of the merged result is the sum of that counter over the results of the shards.
  pub merge_results-counter :
      (c : Counter) (config : RunConfig F) (values : List (RunResult F))
      → counter c (merge_results config values) ≡ sum (map (counter c) values)
  unfolding merge_results
  merge_results-counter c config values =
      let m = merge_all start values in
      counter-derive c config m.pooled_any (assemble m)
      ∙ counter-assemble c m
      ∙ counter-merge_all c start values
      ∙ ap (λ n. n +ℤ sum (map (counter c) values)) (counter-start F c)
      ∙ zero_+ℤ (sum (map (counter c) values))

  backoff-merge_one :
      (m : Merge F) (value : RunResult F)
      → (merge_one m value).merged.backoff_events ≡ m.merged.backoff_events
  unfolding merge_one weigh merge_counts
  backoff-merge_one m value = elim (Bool-cases (ltb_ℤ (pos 0) (weight_of value))) [
    | inl weighed ↦ rw (weighed, weigh) refl
    | inr light ↦ rw (light, weigh) refl
  ]

  backoff-merge_all :
      (m : Merge F) (values : List (RunResult F))
      → (merge_all m values).merged.backoff_events ≡ m.merged.backoff_events
  unfolding merge_all
  backoff-merge_all m [] = refl
  backoff-merge_all m (value ∷ rest) =
      backoff-merge_all (merge_one m value) rest ∙ backoff-merge_one m value

  backoff-assemble : (m : Merge F) → (assemble m).backoff_events ≡ m.merged.backoff_events
  unfolding assemble pool
  backoff-assemble m = elim (Bool-cases m.pooled_any) [
    | inl any ↦ rw (any, assemble) refl
    | inr nothing ↦ rw (nothing, assemble) refl
  ]

  -- The merged result reports no backoff event, whatever the shards reported.
  pub merge_results-backoff_lost :
      (config : RunConfig F) (values : List (RunResult F))
      → (merge_results config values).backoff_events ≡ pos 0
  unfolding merge_results derive start zero_result
  merge_results-backoff_lost config values =
      backoff-assemble (merge_all start values) ∙ backoff-merge_all start values
