-- ===== src/Core/Ladder.antt =====
-- internal/core/search.go: SweepLadder. Rungs are natural numbers, since both ends are at least 1 once
-- they are clamped. Doubling stays far from 2^63: ValidateAutoSearchConfig bounds `max` by 2000.
pub mod Bounds
use load_observatory.Prelude.{
  ℕ, zero, suc, ◌*◌, ℤ, pos, pos_part, ltb_ℤ, ltb, ◌==◌, if◌then◌else◌, Bool, false, List, [], ◌∷◌,
  ◌++◌,
}

-- `if start < 1 { start = 1 }`
unfoldable pub clamp_start : ℤ → ℕ
clamp_start start = if ltb_ℤ start (pos 1) then 1 else pos_part start

-- `if max < start { max = start }`
unfoldable pub clamp_max : ℕ → ℤ → ℕ
clamp_max start max = if ltb_ℤ max (pos start) then start else pos_part max

-- The loop, with the number of rungs that may still be appended before `len(ladder) >= 12` breaks it.
unfoldable pub doublings : ℕ → ℕ → ℕ → List ℕ
doublings zero load max = []
doublings (suc room) load max =
    let rest = doublings room (load * 2) max in if ltb load max then load ∷ rest else []

unfoldable pub ends_at : List ℕ → ℕ → Bool
ends_at [] max = false
ends_at (load ∷ []) max = load == max
ends_at (load ∷ next ∷ rest) max = ends_at (next ∷ rest) max

-- `if len(ladder) == 0 || ladder[len(ladder)-1] != max { append max }`
unfoldable pub close_with : List ℕ → ℕ → List ℕ
close_with ladder max = if ends_at ladder max then ladder else ladder ++ (max ∷ [])

unfoldable pub max_doublings : ℕ
max_doublings = 12

unfoldable pub sweep_ladder : ℤ → ℤ → List ℕ
unfolding clamp_start clamp_max close_with max_doublings
sweep_ladder start max =
    let s = clamp_start start in
    let m = clamp_max s max in close_with (doublings max_doublings s m) m
