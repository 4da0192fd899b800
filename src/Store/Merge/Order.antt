-- ===== src/Store/Merge/Order.antt =====
-- The order in which CompleteShard (internal/store/store.go) visits the shards' results, as `range` over
-- a map leaves it open.
use mathlib.Core.List.{Permᴰ}
use load_observatory.Prelude.{
  ℕ, ℤ, ◌==◌, if◌then◌else◌, ◌≡◌, refl, sym, ◌∙◌, ap, Bool, true, Bool-cases, Option-cases, inl,
  inr, List, [], ◌∷◌, ◌++◌, none, some, arith,
}
use load_observatory.Prelude.Floats.{Floats}
use load_observatory.Prelude.Map.{lookup}
use load_observatory.Core.Types.{RunConfig, RunResult}
use load_observatory.Prelude.Permuted.{map-Perm, gather-Perm}
use load_observatory.Stats.Unordered.{distribution-Perm, sum-Perm}
use load_observatory.Stats.{zero_distribution}
use load_observatory.Store.{MemoryStore}
use load_observatory.Store.Completion.{results_of}
use load_observatory.Store.Merge.{merge_results}
use load_observatory.Store.Merge.Pieces.{distribution_of}
use load_observatory.Store.Merge.Totals.{Counter, counter, merge_results-counter}
use load_observatory.Store.Merge.Pooling.{
  Metric, distribution_by, all_samples, any_samples, sent, merge_results-Pooled, has_samples,
}

distribution_of-Perm : (xs ys : List ℤ) → Permᴰ xs ys → distribution_of xs ≡ distribution_of ys
unfolding distribution_of
distribution_of-Perm xs ys p =
    ap (λ found. elim found [ none ↦ zero_distribution | some d ↦ d ]) (distribution-Perm xs ys p)

module _ {F : Type 0} where
  all_samples-Perm :
      (metric : Metric) {xs ys : List (RunResult F)}
      → Permᴰ xs ys
      → Permᴰ (all_samples metric xs) (all_samples metric ys)
  all_samples-Perm metric =
      gather-Perm (all_samples metric) (λ (value : RunResult F). sent metric value.samples)
        (λ value rest. refl)

  any_samples-Perm : {xs ys : List (RunResult F)} → Permᴰ xs ys → any_samples xs ≡ any_samples ys
  any_samples-Perm Permᴰ.nil = refl
  any_samples-Perm (Permᴰ.cons {b = b} {l₁ = xs} e d) =
      ap (λ (x : RunResult F). any_samples (x ∷ xs)) e
      ∙ ap (λ more. if has_samples b.samples then true else more) (any_samples-Perm d)
  any_samples-Perm (Permᴰ.swap {a = a} {b = b} {l = xs} e f) =
      swapped (has_samples a.samples) (has_samples b.samples) (any_samples xs) ∙ cc (e, f)
    where
      swapped :
          (p q r : Bool)
          → (if p then true else if q then true else r)
            ≡ (if q then true else if p then true else r)
      swapped p q r = ground arith
  any_samples-Perm (Permᴰ.trans d e) = any_samples-Perm d ∙ any_samples-Perm e

module _ {F : Type 0} ⦃fl : Floats F⦄ where
  results_of-step :
      (run_id : ℕ) (s : MemoryStore F) (id : ℕ) (rest : List ℕ)
      → results_of run_id (id ∷ rest) s ≡ results_of run_id (id ∷ []) s ++ results_of run_id rest s
  unfolding results_of
  results_of-step run_id s id rest = elim (Option-cases (lookup id s.shards)) [
    | inl missing ↦ rw (missing, results_of) refl
    | inr (shard, found) ↦ elim (Bool-cases (shard.run_id == run_id)) [
      | inl own ↦ rw (found, results_of) (rw own refl)
      | inr foreign ↦ rw (found, results_of) (rw foreign refl)
    ]
  ]

  results_of-Perm :
      (run_id : ℕ) (s : MemoryStore F) {order other : List ℕ}
      → Permᴰ order other
      → Permᴰ (results_of run_id order s) (results_of run_id other s)
  results_of-Perm run_id s =
      gather-Perm (λ order. results_of run_id order s) (λ id. results_of run_id (id ∷ []) s)
        (results_of-step run_id s)

  -- Of what CompleteShard stores of a run's results, if some shard sent its samples: in whatever order the
  -- results are visited, each of the 17 counters is the same, and so are the distributions of latency,
  -- TTFT, TTFO, ITL and TPOT and the two P95 fields. Nothing is said of the other fields.
  pub merge_results-unordered :
      (config : RunConfig F) (run_id : ℕ) (s : MemoryStore F) (order other : List ℕ)
      → Permᴰ order other
      → any_samples (results_of run_id order s) ≡ true
      → let one = merge_results config (results_of run_id order s) in
        let two = merge_results config (results_of run_id other s) in
        ((c : Counter) → counter c one ≡ counter c two)
        × ((metric : Metric) → distribution_by metric one ≡ distribution_by metric two)
        × (one.p95_millis ≡ two.p95_millis)
        × (one.ttft_p95_millis ≡ two.ttft_p95_millis)
  merge_results-unordered config run_id s order other d any =
      let xs = results_of run_id order s in
      let ys = results_of run_id other s in
      let same : Permᴰ xs ys = results_of-Perm run_id s d in
      let (each, p95, ttft_p95) = merge_results-Pooled config xs any in
      let (each', p95', ttft_p95') =
        merge_results-Pooled config ys (sym (any_samples-Perm same) ∙ any) in
      let pooled : (metric : Metric)
          → distribution_of (all_samples metric xs) ≡ distribution_of (all_samples metric ys) =
        λ metric.
          distribution_of-Perm (all_samples metric xs) (all_samples metric ys)
            (all_samples-Perm metric same) in
      (
        λ c.
            merge_results-counter c config xs
            ∙ sum-Perm (map-Perm (counter c) same)
            ∙ sym (merge_results-counter c config ys),
        λ metric. each metric ∙ pooled metric ∙ sym (each' metric),
        p95 ∙ ap (λ d. d.p95_millis) (pooled Metric.latency) ∙ sym p95',
        ttft_p95 ∙ ap (λ d. d.p95_millis) (pooled Metric.ttft) ∙ sym ttft_p95',
      )
