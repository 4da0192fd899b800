-- ===== src/Examples/SearchRuns.antt =====
-- The capacity search of internal/core/search.go on a server whose P95 grows with the load.
use load_observatory.Prelude.{
  ℕ, ◌*◌, ◌-◌, ◌≤◌, ℤ, pos, ◌≡◌, refl, ◌↔◌, true, List, [], ◌∷◌, some, arith, get_elem?, length,
}
use load_observatory.Prelude.Floats.{whole}
use load_observatory.Core.Types.{Run, AutoSearchStep, unmet}
use load_observatory.Core.Ladder.{sweep_ladder, doublings, ends_at, clamp_start, clamp_max}
use load_observatory.Core.Ladder.Bounds.{Rising, last_or, sweep_ladder_shape}
use load_observatory.Core.Verdict.{is_run_stable, instability_message}
use load_observatory.Core.Verdict.Agreement.{is_run_stable-instability_message}
use load_observatory.Core.Search.{knee_load, step_from, load_of, planned}
use load_observatory.Core.Search.Knee.{IsReached, HoldsBelow, StopsAbove, knee_load_correct}
use load_observatory.Core.Search.Outcome.{Outcome}
use load_observatory.Core.Search.Advance.{Ends, sweep, sweep-Ends}
use load_observatory.Examples.Inputs.{run_at, new_search}

ladder_run : sweep_ladder (pos 5) (pos 40) ≡ 5 ∷ 10 ∷ 20 ∷ 40 ∷ []
unfolding sweep_ladder doublings ends_at
ladder_run = refl

-- A ladder from 0 starts at 1.
ladder_from_zero : sweep_ladder (pos 0) (pos 6) ≡ 1 ∷ 2 ∷ 4 ∷ 6 ∷ []
unfolding sweep_ladder doublings ends_at
ladder_from_zero = refl

sweep_ladder_shape_example :
    let s = clamp_start (pos 5) in
    let m = clamp_max s (pos 50) in
    (get_elem? (sweep_ladder (pos 5) (pos 50)) 0 ≡ some s)
    × Rising (s - 1) (sweep_ladder (pos 5) (pos 50)) m
    × (last_or 0 (sweep_ladder (pos 5) (pos 50)) ≡ m)
    × (length (sweep_ladder (pos 5) (pos 50)) ≤ 13)
sweep_ladder_shape_example = sweep_ladder_shape (pos 5) (pos 50)

is_run_stable-instability_message_example :
    (is_run_stable (run_at 5 400) ≡ true) ↔ (instability_message (run_at 5 400) ≡ unmet)
is_run_stable-instability_message_example =
    is_run_stable-instability_message (run_at 5 400) (record { le_not_lt = refl; split = refl })
      (record { le_not_lt = refl; split = refl }) refl

abbrev measured : ℕ → AutoSearchStep ℤ
measured load = step_from (pos load) (run_at load (load * 100))

abbrev steps : List (AutoSearchStep ℤ)
steps = measured 40 ∷ measured 10 ∷ measured 20 ∷ []

knee_load_correct_example :
    IsReached (knee_load steps) steps
    × HoldsBelow (knee_load steps) steps
    × StopsAbove (knee_load steps) steps
unfolding step_from
knee_load_correct_example = knee_load_correct steps (omega arith)

abbrev server : ℕ → Run ℤ
server load = run_at load (load * 100)

sweep-Ends_example : Ends (sweep server 4 new_search 5) 4
unfolding load_of planned
sweep-Ends_example = sweep-Ends server 4 new_search 5 (λ l. refl) (omega arith)
