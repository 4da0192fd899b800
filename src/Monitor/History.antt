-- ===== src/Monitor/History.antt =====
-- internal/monitor/monitor.go: what a sample finds, after any samples taken before it.
use load_observatory.Prelude.{
  ℕ, ℤ, ◌+ℤ◌, ◌≤ℤ◌, ◌≡◌, ◌≢◌, refl, sym, ◌∙◌, ap, subst, true, inl, inr, List, [], ◌∷◌, Option,
  none, some, All, All-In, In, String, arith,
}
use load_observatory.Prelude.Map.{lookup}
use load_observatory.Core.Types.{Metric}
use load_observatory.Monitor.{
  Resolver, new_resolver, outcome_for, value_of, Collected, collect_one, collect, nothing_yet,
  with_metric, absent_retry_interval, sample, report, attempt,
}
use load_observatory.Monitor.Table.{MetricQuery, key_of, queries}
use load_observatory.Monitor.Attempts.{
  Answered, Entry, entry, entry_after, entry-note, entry-note_other, Remembers, Waits,
  attempt-Answered, attempt-answers, entry_after-Remembers, entry_after-Waits,
}

abbrev key : MetricQuery → ℕ
key q = key_of q.key

-- No two queries are of one metric.
abbrev IsDistinct : List MetricQuery → Type 0
IsDistinct [] = Unit
IsDistinct (q ∷ rest) = All (λ other. key q ≢ key other) rest × IsDistinct rest

module _ {F : Type 0} (ask : String → Option F) (now : ℤ) where
  with_metric_other :
      (q other : MetricQuery) (value : Option F) (metrics : Metric → Option F)
      → key q ≢ key other
      → with_metric q.key value metrics other.key ≡ metrics other.key
  with_metric_other q other none metrics h = refl
  with_metric_other q other (some value) metrics h = ground arith

  with_metric_self :
      (q : MetricQuery) (value : Option F) (metrics : Metric → Option F)
      → metrics q.key ≡ none
      → with_metric q.key value metrics q.key ≡ value
  with_metric_self q none metrics h = h
  with_metric_self q (some value) metrics h = ground arith

  outcome_for-entry :
      (q : MetricQuery) (a b : Resolver)
      → entry (key q) a ≡ entry (key q) b
      → outcome_for ask now a q ≡ outcome_for ask now b q
  unfolding outcome_for
  outcome_for-entry q a b same = ap (λ e. attempt ask now e.0 e.1 q.candidates) same

  -- Queries of other metrics leave a metric and its entry alone.
  collect_other :
      (q : MetricQuery) (others : List MetricQuery) (c : Collected F)
      → All (λ other. key q ≢ key other) others
      → let after = collect ask now others c in
        (after.metrics q.key ≡ c.metrics q.key)
        × (entry (key q) after.state ≡ entry (key q) c.state)
  unfolding collect collect_one
  collect_other q [] c h = (refl, refl)
  collect_other q (other ∷ rest) c h =
      let (metric, held) = collect_other q rest (collect_one ask now other c) h.1 in
      let apart : key other ≢ key q = λ e. h.0 (sym e) in
      (
        metric
            ∙ with_metric_other other q (value_of (outcome_for ask now c.state other)) c.metrics
                apart,
        held
            ∙ entry-note_other (key other) (key q) now (outcome_for ask now c.state other) c.state
                apart,
      )

module _ {F : Type 0} (ask : String → Option F) (now : ℤ) where
  -- What a metric's own query does, whatever the other queries.
  collect_own :
      (q : MetricQuery) (qs : List MetricQuery) (c : Collected F)
      → IsDistinct qs
      → In q qs
      → c.metrics q.key ≡ none
      → let outcome = outcome_for ask now c.state q in
        let after = collect ask now qs c in
        (after.metrics q.key ≡ value_of outcome)
        × (entry (key q) after.state ≡ entry_after now outcome (entry (key q) c.state))
  unfolding collect collect_one
  collect_own q [] c distinct there fresh = absurd there
  collect_own q (other ∷ rest) c distinct (inl e) fresh =
      subst (λ x. Own x) (sym e)
        (let (metric, held) =
            collect_other ask now other rest (collect_one ask now other c) distinct.0 in
          (
            metric
                ∙ with_metric_self ask now other (value_of (outcome_for ask now c.state other))
                    c.metrics (subst (λ x. c.metrics x.key ≡ none) e fresh),
            held ∙ entry-note (key other) now (outcome_for ask now c.state other) c.state,
          ))
    where
      Own : MetricQuery → Type 0
      Own x =
          let after = collect ask now rest (collect_one ask now other c) in
          (after.metrics x.key ≡ value_of (outcome_for ask now c.state x))
          × (entry (key x) after.state
              ≡ entry_after now (outcome_for ask now c.state x) (entry (key x) c.state))
  collect_own q (other ∷ rest) c distinct (inr there) fresh =
      let apart : key other ≢ key q = All-In (λ x. key other ≢ key x) q rest distinct.0 there in
      let outcome = outcome_for ask now c.state other in
      let kept : entry (key q) (collect_one ask now other c).state ≡ entry (key q) c.state =
        entry-note_other (key other) (key q) now outcome c.state apart in
      let (metric, held) =
        collect_own q rest (collect_one ask now other c) distinct.1 there
          (with_metric_other ask now other q (value_of outcome) c.metrics apart ∙ fresh) in
      let same : outcome_for ask now (collect_one ask now other c).state q
          ≡ outcome_for ask now c.state q =
        outcome_for-entry ask now q (collect_one ask now other c).state c.state kept in
      (
        metric ∙ ap value_of same,
        held
            ∙ ap (λ o. entry_after now o (entry (key q) (collect_one ask now other c).state)) same
            ∙ ap (entry_after now (outcome_for ask now c.state q)) kept,
      )

queries-IsDistinct : IsDistinct queries
unfolding queries key_of
queries-IsDistinct = omega arith

module _ {F : Type 0} where
  -- The resolver after samples at some times, with what was answered at each.
  unfoldable pub replay : Resolver → List (ℤ × (String → Option F)) → Resolver
  replay state [] = state
  replay state ((time, ask) ∷ rest) = replay (sample true ask time state).0 rest

  report-metrics :
      (c : Collected F) (metric : Metric) → (report c).metrics metric ≡ c.metrics metric
  unfolding report
  report-metrics c metric = ground arith

  -- A sample of a query's metric is that of its attempt, from what the resolver held for it.
  sample-own :
      (ask : String → Option F) (now : ℤ) (state : Resolver) (q : MetricQuery)
      → In q queries
      → let outcome = outcome_for ask now state q in
        ((sample true ask now state).1.metrics q.key ≡ value_of outcome)
        × (entry (key q) (sample true ask now state).0
            ≡ entry_after now outcome (entry (key q) state))
  unfolding sample
  sample-own ask now state q there =
      let (metric, held) =
        collect_own ask now q queries (nothing_yet state) queries-IsDistinct there refl in
      (report-metrics (collect ask now queries (nothing_yet state)) q.key ∙ metric, held)

  replay-Remembers :
      (q : MetricQuery)
      → In q queries
      → (history : List (ℤ × (String → Option F))) (state : Resolver)
      → Remembers q.candidates (entry (key q) state).0
      → Remembers q.candidates (entry (key q) (replay state history)).0
  unfolding replay outcome_for
  replay-Remembers q there [] state own = own
  replay-Remembers q there ((time, ask) ∷ rest) state own =
      replay-Remembers q there rest (sample true ask time state).0 (
        subst (λ (e : Entry). Remembers q.candidates e.0)
          (sym (sample-own ask time state q there).1)
          (entry_after-Remembers ask time q.candidates (entry (key q) state).0
            (entry (key q) state).1 own))

  replay-Waits :
      (bound : ℤ) (q : MetricQuery)
      → In q queries
      → (history : List (ℤ × (String → Option F))) (state : Resolver)
      → All (λ past. (past.0 +ℤ absent_retry_interval) ≤ℤ bound) history
      → Waits bound (entry (key q) state).1
      → Waits bound (entry (key q) (replay state history)).1
  unfolding replay
  replay-Waits bound q there [] state old due = due
  replay-Waits bound q there ((time, ask) ∷ rest) state old due =
      replay-Waits bound q there rest (sample true ask time state).0 old.1 (
        subst (λ (e : Entry). Waits bound e.1) (sym (sample-own ask time state q there).1)
          (entry_after-Waits ask time q.candidates bound (outcome_for ask time state q)
            (entry (key q) state) old.0 due))

  -- Whatever the samples before it: what a sample shows for a metric is what one of the expressions of
  -- that metric's own list answers now.
  pub sample-Answered :
      (history : List (ℤ × (String → Option F))) (ask : String → Option F) (now : ℤ)
      (q : MetricQuery) (value : F)
      → In q queries
      → (sample true ask now (replay new_resolver history)).1.metrics q.key ≡ some value
      → Answered ask now q.candidates value
  unfolding outcome_for
  sample-Answered history ask now q value there shown =
      let state = replay new_resolver history in
      attempt-Answered ask now q.candidates (entry (key q) state).0 (entry (key q) state).1 value
        (replay-Remembers q there history new_resolver (unfold lookup in tt))
        (sym (sample-own ask now state q there).0 ∙ shown)

  -- If every sample before is at least a minute old and one of a metric's expressions answers now, the
  -- sample shows a value for the metric.
  pub sample-answers :
      (history : List (ℤ × (String → Option F))) (ask : String → Option F) (now : ℤ)
      (q : MetricQuery) (value : F)
      → In q queries
      → All (λ past. (past.0 +ℤ absent_retry_interval) ≤ℤ now) history
      → Answered ask now q.candidates value
      → (seen : F) × ((sample true ask now (replay new_resolver history)).1.metrics q.key
          ≡ some seen)
  unfolding outcome_for
  sample-answers history ask now q value there old answered =
      let state = replay new_resolver history in
      let (seen, e) =
        attempt-answers ask now q.candidates (entry (key q) state).0 (entry (key q) state).1 value
          (replay-Waits now q there history new_resolver old (unfold lookup in tt)) answered in
      (seen, (sample-own ask now state q there).0 ∙ e)
