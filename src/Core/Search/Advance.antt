-- ===== src/Core/Search/Advance.antt =====
-- The whole sweep that the store drives with AdvanceSearch: each returned load is run, and its result
-- handed back (internal/core/search.go; internal/store/store.go, AdvanceSearch).
use load_observatory.Prelude.{
  ℕ, zero, suc, ◌+◌, ◌≤◌, ◌<◌, pos, ◌≡◌, refl, ◌∙◌, List, [], ◌∷◌, Option, none, some, length,
  length-append, arith,
}
use load_observatory.Prelude.Floats.{Floats}
use load_observatory.Core.Types.{Run, AutoSearch}
use load_observatory.Core.Search.Rungs.{above, IsFinished, finish_search_keeps}
use load_observatory.Core.Search.Outcome.{Outcome, advance_search-Branches}
use load_observatory.Core.Search.{
  load_of, next_rung, finish_search, planned, record_step, climb, advance_search,
}

module _ {F : Type 0} ⦃fl : Floats F⦄ where
  -- The parts of the search that later calls depend on.
  abbrev Kept : AutoSearch F → AutoSearch F → Type 0
  Kept search after =
      (after.ladder ≡ planned search search.ladder)
      × (length after.steps ≡ suc (length search.steps))
      × (after.config ≡ search.config)

  record_step-Kept : (search : AutoSearch F) (run : Run F) → Kept search (record_step search run)
  unfolding record_step
  record_step-Kept search run = (refl, omega (arith, length-append search.steps (_ ∷ [])), refl)

  finish_search-Kept :
      (search recorded : AutoSearch F) → Kept search recorded → Kept search (finish_search recorded)
  finish_search-Kept search recorded k = ground (arith, finish_search_keeps recorded)

  climb-Kept :
      (search recorded : AutoSearch F) (next : Option ℕ)
      → Kept search recorded
      → Kept search (climb recorded next).0
  unfolding climb
  climb-Kept search recorded none k = finish_search-Kept search recorded k
  climb-Kept search recorded (some rung) k = k

  advance_search-Kept :
      (search : AutoSearch F) (run : Run F) → Kept search (advance_search search run).0
  unfolding advance_search
  advance_search-Kept search run =
      let recorded = record_step search run in
      let k = record_step-Kept search run in
      ground (
        arith,
        finish_search-Kept search recorded k,
        climb-Kept search recorded (next_rung (load_of run.config) recorded.ladder) k,
      )

  planned_again :
      (search after : AutoSearch F) (l : List ℕ)
      → planned search search.ladder ≡ l
      → after.ladder ≡ l
      → after.config ≡ search.config
      → planned after after.ladder ≡ l
  unfolding planned
  planned_again search after [] p a c = ground arith
  planned_again search after (r ∷ rest) p a c = ground arith

  resume :
      (AutoSearch F → ℕ → Option (AutoSearch F)) → AutoSearch F × Option ℕ → Option (AutoSearch F)
  resume go (after, none) = some after
  resume go (after, some rung) = go after rung

  -- The store's loop: run the load, hand the result back, go on with the load that is returned.
  unfoldable pub sweep : (ℕ → Run F) → ℕ → AutoSearch F → ℕ → Option (AutoSearch F)
  unfolding resume
  sweep measure zero search load = none
  sweep measure (suc fuel) search load =
      resume (sweep measure fuel) (advance_search search (measure load))

  -- The result of a sweep: finished, with at most `bound` steps.
  abbrev pub Ends : Option (AutoSearch F) → ℕ → Type 0
  Ends result bound =
      (final : AutoSearch F) × (result ≡ some final)
      × IsFinished final
      × (length final.steps ≤ bound)

  -- How the rest of a sweep ends, if each call it makes ends.
  resume-Ends :
      (go : AutoSearch F → ℕ → Option (AutoSearch F)) (search : AutoSearch F) (run : Run F)
      (l : List ℕ) (fuel : ℕ)
      → ((after : AutoSearch F) (rung : ℕ)
          → planned after after.ladder ≡ l
          → above (pos rung) l < fuel
          → Ends (go after rung) (length after.steps + suc (above (pos rung) l)))
      → planned search search.ladder ≡ l
      → above (load_of run.config) l < suc fuel
      → (result : AutoSearch F × Option ℕ) → Outcome search run result
      → Kept search result.0
      → Ends (resume go result) (length search.steps + suc (above (load_of run.config) l))
  unfolding resume
  resume-Ends go search run l fuel ih p h (after, none) o k = (after, refl, o.0, omega (arith, k.1))
  resume-Ends go search run l fuel ih p h (after, some rung) o k =
      let a : after.ladder ≡ l = k.0 ∙ p in
      let fewer : above (pos rung) l < above (load_of run.config) l = rw a at o.2 in
      let (final, e, f, n) = ih after rung (planned_again search after l p a k.2) (omega arith) in
      (final, e, f, omega (arith, k.1))

  -- A sweep from any load ends, whatever the runs measure, as long as each run has the load that was
  -- asked for: with as much fuel as there are rungs above the first load, and one more, the search is
  -- finished, and it has measured no more steps than that.
  pub sweep-Ends :
      (measure : ℕ → Run F) (fuel : ℕ) (search : AutoSearch F) (load : ℕ)
      → ((l : ℕ) → load_of (measure l).config ≡ pos l)
      → above (pos load) (planned search search.ladder) < fuel
      → Ends
          (sweep measure fuel search load)
          (length search.steps + suc (above (pos load) (planned search search.ladder)))
  unfolding sweep
  sweep-Ends measure zero search load loads h = absurd (omega arith)
  sweep-Ends measure (suc fuel) search load loads h = rw (← loads load) (
      resume-Ends (sweep measure fuel) search (measure load) (planned search search.ladder) fuel
        (λ after rung p k. rw (← p) (sweep-Ends measure fuel after rung loads (rw (← p) at k))) refl
        (rw (loads load) h) (advance_search search (measure load))
        (advance_search-Branches search (measure load)) (advance_search-Kept search (measure load)))
