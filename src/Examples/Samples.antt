-- ===== src/Examples/Samples.antt =====
-- Sample sets and distributions of internal/agent/runner.go on a few samples.
use load_observatory.Prelude.{ℤ, pos, ◌≡◌, List, [], ◌∷◌, some, arith}
use load_observatory.Core.Types.{Distribution}
use load_observatory.Stats.{distribution}
use load_observatory.Stats.Ranks.{Summarises, distribution-Summarises}
use load_observatory.Agent.SampleSet.{add_all, empty}
use load_observatory.Agent.SampleSet.Spread.{IsSpread, add_all-IsSpread}

abbrev millis : List ℤ
millis = pos 30 ∷ pos 10 ∷ pos 20 ∷ pos 40 ∷ pos 50 ∷ []

-- A cap of 4 thins the set twice.
add_all-IsSpread_example : IsSpread 4 millis (add_all 4 empty millis)
add_all-IsSpread_example = add_all-IsSpread 4 millis (omega arith)

distribution-Summarises_example :
    (d : Distribution) × (distribution millis ≡ some d) × Summarises millis d
distribution-Summarises_example =
    distribution-Summarises (pos 30) (pos 10 ∷ pos 20 ∷ pos 40 ∷ pos 50 ∷ [])
