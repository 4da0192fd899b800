-- ===== src/Core/Search/Outcome.antt =====
-- One call of AdvanceSearch (internal/core/search.go), on every branch.
use mathlib.Core.Bool.{true≢false}
use mathlib.Core.List.{Memᴰ}
use load_observatory.Prelude.{
  ℕ, ◌<◌, ℤ, pos, eqb_ℤ, leb, not, ◌&&◌, ◌≤ℤ◌, ◌<ℤ◌, ◌≡◌, refl, ◌∙◌, ◌⊎◌, inl, inr, [], ◌∷◌, Option,
  none, some, arith, Bool, Bool-cases, true, false, ◌++◌, sym, max_ℤ,
}
use load_observatory.Prelude.Floats.{Floats}
use load_observatory.Core.Types.{Run, AutoSearch}
use load_observatory.Core.Verdict.{is_run_stable}
use load_observatory.Core.Search.{
  load_of, step_from, next_rung, finish_search, record_step, climb, advance_search,
  consecutive_unstable_tail, unstable_rungs_before_stopping,
}
use load_observatory.Core.Search.Tail.{
  TwoUnstable, TwoUnstable-consecutive_unstable_tail, consecutive_unstable_tail-TwoUnstable,
}
use load_observatory.Core.Search.Rungs.{
  above, next_rung-above, next_rung-mem, IsFinished, finish_search-IsFinished, finish_search_keeps,
  finish_search_bounds, FirstAbove, next_rung-FirstAbove, next_rung-none,
}

module _ {F : Type 0} ⦃fl : Floats F⦄ where
  -- What a run moves: a stable one lifts the stable load to its own load at least, an unstable one lowers
  -- the failed load to its own load at most, where 0 stands for none yet.
  abbrev pub Moves : AutoSearch F → Run F → AutoSearch F → Type 0
  Moves search run after =
      let load = load_of run.config in
      (after.steps ≡ search.steps ++ (step_from load run ∷ []))
      × (((is_run_stable run ≡ true)
            × (after.stable_load ≡ max_ℤ search.stable_load load)
            × (after.failed_load ≡ search.failed_load))
          ⊎ ((is_run_stable run ≡ false)
              × (after.stable_load ≡ search.stable_load)
              × (((after.failed_load ≡ load)
                    × ((search.failed_load ≡ pos 0) ⊎ (load <ℤ search.failed_load)))
                  ⊎ ((after.failed_load ≡ search.failed_load)
                      × (¬ (search.failed_load ≡ pos 0))
                      × (search.failed_load ≤ℤ load)))))

  -- Nothing was stable yet, this run included.
  abbrev pub Hopeless : Run F → AutoSearch F → Type 0
  Hopeless run after = (after.stable_load ≡ pos 0) × (is_run_stable run ≡ false)

  -- What one call leaves: a finished search, because nothing was stable, because the last two steps were
  -- not, or because no rung is left above the load; or, if none of these holds, the next load to run,
  -- with the search otherwise going on.
  abbrev pub Outcome : AutoSearch F → Run F → AutoSearch F × Option ℕ → Type 0
  Outcome search run (after, none) =
      IsFinished after
      × (Hopeless run after
          ⊎ (TwoUnstable after.steps ⊎ (above (load_of run.config) after.ladder ≡ 0)))
  Outcome search run (after, some rung) =
      Memᴰ rung after.ladder
      × (load_of run.config <ℤ pos rung)
      × (above (pos rung) after.ladder < above (load_of run.config) after.ladder)
      × FirstAbove (load_of run.config) rung after.ladder
      × (after.next_load ≡ pos rung)
      × (after.status ≡ search.status)
      × (¬ Hopeless run after)
      × (¬ TwoUnstable after.steps)

  finished :
      (search recorded : AutoSearch F) (run : Run F)
      → Hopeless run recorded
        ⊎ (TwoUnstable recorded.steps ⊎ (above (load_of run.config) recorded.ladder ≡ 0))
      → Outcome search run (finish_search recorded, none)
  finished search recorded run why =
      let (steps, ladder, _) = finish_search_keeps recorded in
      let (stable, _) = finish_search_bounds recorded in
      (finish_search-IsFinished recorded, rw (steps, ladder, stable) why)

  climb-Outcome :
      (search recorded : AutoSearch F) (run : Run F) (next : Option ℕ)
      → next_rung (load_of run.config) recorded.ladder ≡ next
      → recorded.status ≡ search.status
      → ¬ Hopeless run recorded
      → ¬ TwoUnstable recorded.steps
      → Outcome search run (climb recorded next)
  unfolding climb
  climb-Outcome search recorded run none e s some_stable alive =
      finished search recorded run
        (inr (inr (next_rung-none (load_of run.config) recorded.ladder e)))
  climb-Outcome search recorded run (some rung) e s some_stable alive =
      let up = next_rung-above (load_of run.config) recorded.ladder rung e in
      (
        next_rung-mem (load_of run.config) recorded.ladder rung e,
        up.0,
        up.1,
        next_rung-FirstAbove (load_of run.config) recorded.ladder rung e,
        refl,
        s,
        some_stable,
        alive,
      )

  record_step_status :
      (search : AutoSearch F) (run : Run F) → (record_step search run).status ≡ search.status
  unfolding record_step
  record_step_status search run = refl

  pub advance_search-Branches :
      (search : AutoSearch F) (run : Run F) → Outcome search run (advance_search search run)
  unfolding advance_search
  advance_search-Branches search run =
      let recorded = record_step search run in
      elim (Bool-cases (eqb_ℤ recorded.stable_load (pos 0) && not (is_run_stable run))) [
        | inl hopeless ↦
            rw hopeless (finished search recorded run (inl (ground arith, ground arith)))
        | inr going ↦
            rw going
              (elim (Bool-cases
                (leb unstable_rungs_before_stopping (consecutive_unstable_tail recorded.steps))) [
                  | inl failing ↦ rw failing (
                      finished search recorded run
                        (inr (inl (TwoUnstable-consecutive_unstable_tail recorded.steps failing))))
                  | inr alive ↦ rw alive (
                      climb-Outcome search recorded run
                        (next_rung (load_of run.config) recorded.ladder) refl
                        (record_step_status search run) (λ h. hopeful h going)
                        (λ two.
                          true≢false (
                            sym (consecutive_unstable_tail-TwoUnstable recorded.steps two)
                            ∙ alive)))
                ])
      ]
    where
      hopeful :
          {load : ℤ} {stable : Bool}
          → (load ≡ pos 0) × (stable ≡ false)
          → eqb_ℤ load (pos 0) && not stable ≡ false
          → ⊥
      hopeful h going = ground (arith, h)
