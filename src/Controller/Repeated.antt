-- ===== src/Controller/Repeated.antt =====
-- internal/controller/server.go: completeShard for a run that is completed already.
use load_observatory.Prelude.{
  ℕ, ℤ, pos, ◌≡◌, refl, sym, ◌∙◌, ap, subst, true, List, [], ◌∷◌, ◌++◌, Option, none, some,
  Option-cases, inl, inr, arith,
}
use load_observatory.Prelude.Floats.{Floats}
use load_observatory.Prelude.Map.{lookup, insert, lookup-insert}
use load_observatory.Core.Types.{
  Run, RunResult, completed, AutoSearch, AutoSearchStatus, AutoSearchStep, MonitoringSample, Shard,
}
use load_observatory.Core.Search
use load_observatory.Core.Search.Rungs.{finish_search_keeps}
use load_observatory.Store.Zero.{run_or_zero}
use load_observatory.Store.{MemoryStore, is_cancelled}
use load_observatory.Store.Completion
use load_observatory.Store.Completion.{all_completed}
use load_observatory.Store.Records
use load_observatory.Store.Merge.{merge_results}
use load_observatory.Store.Searches
use load_observatory.Store.Views
use load_observatory.Controller.Sampled.{add_monitoring-run}
use load_observatory.Controller.{complete_shard, respond_shard, after_completion}

module _ {F : Type 0} ⦃fl : Floats F⦄ where
  -- One call adds one step at the end, of the run.
  advance-steps :
      (search : AutoSearch F) (run : Run F)
      → (Search.advance_search search run).0.steps
        ≡ search.steps ++ (Search.step_from (Search.load_of run.config) run ∷ [])
  unfolding Search.advance_search Search.record_step
  advance-steps search run = ground (arith, finish_search_keeps (Search.record_step search run))

  store_advanced-steps :
      (s : MemoryStore F) (search_id : ℕ) (moved : AutoSearch F × Option ℕ)
      → (advanced : AutoSearch F) × (lookup search_id
            (Searches.store_advanced s search_id moved).searches
          ≡ some advanced)
        × (advanced.steps ≡ moved.0.steps)
  unfolding Searches.store_advanced Searches.queue_search_run
  store_advanced-steps s search_id (search, none) =
      (search, rw (lookup-insert search_id search_id search s.searches) (ground arith), refl)
  store_advanced-steps s search_id (search, some next) =
      let (queued, noted) = Searches.queue_search_run s search (pos next) in
      (noted, rw (lookup-insert search_id search_id noted queued.searches) (ground arith), refl)

  advances :
      (s : MemoryStore F) (run_id search_id : ℕ) (search : AutoSearch F) (run : Run F)
      → lookup run_id s.search_run ≡ some search_id
      → lookup search_id s.searches ≡ some search
      → lookup run_id s.runs ≡ some run
      → search.status ≡ AutoSearchStatus.running
      → Searches.advance_search s run_id
        ≡ Searches.store_advanced s search_id (Search.advance_search search run)
  unfolding Searches.advance_search Searches.advance_if_running run_or_zero
  advances s run_id search_id search run noted found held running =
      rw (noted, Searches.advance_search)
        (rw found (
          rw (held, run_or_zero)
            (subst
              (λ status.
                Searches.advance_if_running s search_id search run status
                ≡ Searches.store_advanced s search_id (Search.advance_search search run))
              (sym running) refl)))

  advance_search-steps :
      (s : MemoryStore F) (run_id search_id : ℕ) (search : AutoSearch F) (run : Run F)
      → lookup run_id s.search_run ≡ some search_id
      → lookup search_id s.searches ≡ some search
      → lookup run_id s.runs ≡ some run
      → search.status ≡ AutoSearchStatus.running
      → (advanced : AutoSearch F) × (step : AutoSearchStep F) × (lookup search_id
            (Searches.advance_search s run_id).searches
          ≡ some advanced)
        × (advanced.steps ≡ search.steps ++ (step ∷ []))
        × (step.run_id ≡ run.id)
  advance_search-steps s run_id search_id search run noted found held running =
      let (advanced, there, steps) =
        store_advanced-steps s search_id (Search.advance_search search run) in
      (
        advanced,
        Search.step_from (Search.load_of run.config) run,
        ap (λ (t : MemoryStore F). lookup search_id t.searches)
              (advances s run_id search_id search run noted found held running)
            ∙ there,
        steps ∙ advance-steps search run,
        (unfold Search.step_from in refl),
      )

  -- A run of a search that is completed, with every shard reported, while the search goes on.
  pub record IsPast (s : MemoryStore F) (shard_id search_id : ℕ) (run : Run F)
      (search : AutoSearch F) : Type 0 where
    pub shard : Shard
    pub shard_found : lookup shard_id s.shards ≡ some shard
    pub of_run : shard.run_id ≡ run.id
    pub run_found : lookup run.id s.runs ≡ some run
    pub done : run.status ≡ completed
    pub reported :
        all_completed run.id (insert shard_id (record shard { status = completed }) s.shards) ≡ true
    pub noted : lookup run.id s.search_run ≡ some search_id
    pub search_found : lookup search_id s.searches ≡ some search
    pub running : search.status ≡ AutoSearchStatus.running

  -- The last shard's result finishes the run.
  finishes :
      (order : List ℕ) (s : MemoryStore F) (shard_id search_id : ℕ) (run : Run F)
      (search : AutoSearch F) (result : RunResult F) (past : IsPast s shard_id search_id run search)
      → Completion.complete_shard order s shard_id result
        ≡ Completion.finish_run order
            (record s {
              shards = insert shard_id (record past.shard { status = completed }) s.shards;
              shard_results = insert shard_id result s.shard_results;
            })
            run
  unfolding Completion.complete_shard Completion.settle run_or_zero
  finishes order s shard_id search_id run search result past =
      let found : lookup past.shard.run_id s.runs ≡ some run =
        subst (λ id. lookup id s.runs ≡ some run) (sym past.of_run) past.run_found in
      rw (past.shard_found, Completion.complete_shard)
        (rw (found, run_or_zero) (rw (ap is_cancelled past.done) (rw past.reported refl)))

  after_completion-advances :
      (texts : List ℕ) (now : ℤ) (sample : MonitoringSample F) (s : MemoryStore F) (run : Run F)
      → (after_completion texts now sample s run).0
        ≡ Searches.advance_search (Records.add_monitoring now s run.id sample) run.id
  unfolding after_completion
  after_completion-advances texts now sample s run =
      let advanced = Searches.advance_search (Records.add_monitoring now s run.id sample) run.id in
      elim (Option-cases (Views.get_run texts advanced run.id)) [
        | inl gone ↦ rw (gone, after_completion) refl
        | inr (fresh, there) ↦ rw (there, after_completion) refl
      ]

  -- When the result of a shard is posted again for a run that is completed, while its search goes on:
  -- the search gains another step of the same run.
  pub complete_shard-repeated :
      (texts order : List ℕ) (now : ℤ) (sample : MonitoringSample F) (s : MemoryStore F)
      (shard_id search_id : ℕ) (run : Run F) (search : AutoSearch F) (result : RunResult F)
      → IsPast s shard_id search_id run search
      → let (after, response) = complete_shard texts order now sample s shard_id (some result) in
        (advanced : AutoSearch F) × (step : AutoSearchStep F) × (lookup search_id after.searches
          ≡ some advanced)
        × (advanced.steps ≡ search.steps ++ (step ∷ []))
        × (step.run_id ≡ run.id)
  unfolding complete_shard respond_shard Completion.finish_run
  complete_shard-repeated texts order now sample s shard_id search_id run search result past =
      let recorded : MemoryStore F = record s {
        shards = insert shard_id (record past.shard { status = completed }) s.shards;
        shard_results = insert shard_id result s.shard_results;
      } in
      let (merged, returned) = Completion.finish_run order recorded run in
      let done : Run F = record run {
        status = completed;
        result = merge_results run.config (Completion.results_of run.id order recorded);
      } in
      let (sampled, there, same, _, _, _, searches, search_run) =
        add_monitoring-run now sample merged run.id done
          (rw (lookup-insert run.id run.id done s.runs) (ground arith)) in
      let (advanced, step, found, steps, own) =
        advance_search-steps (Records.add_monitoring now merged run.id sample) run.id search_id
          search sampled (ap (lookup run.id) search_run ∙ past.noted)
          (ap (lookup search_id) searches ∙ past.search_found) there past.running in
      (
        advanced,
        step,
        ap
              (λ (p : MemoryStore F × Option (Run F)).
                lookup search_id (respond_shard texts now sample p).0.searches)
              (finishes order s shard_id search_id run search result past)
            ∙ ap (λ (t : MemoryStore F). lookup search_id t.searches)
                (after_completion-advances texts now sample merged done)
            ∙ found,
        steps,
        own ∙ same,
      )
