-- ===== src/Agent/Workload.antt =====
-- internal/agent/runner.go: nextWorkload and nextJourney choose a task or a journey by its weight, from
-- the number of the request; and whether the prompt of the request is varied.
pub mod Fair
use load_observatory.Prelude.{
  ℤ, pos, ◌+ℤ◌, ◌-ℤ◌, times_ℤ, rem_ℤ, ltb_ℤ, eqb_ℤ, if◌then◌else◌, Bool, true, false, List, [], ◌∷◌,
  Option, none, some,
}
use load_observatory.Core.Types.{ScenarioTask, UserJourney, CachePolicy}

module _ {A : Type 0} (weight : A → ℤ) where
  unfoldable pub total_weight : List A → ℤ
  total_weight [] = pos 0
  total_weight (x ∷ xs) = weight x +ℤ total_weight xs

  -- `pick -= weight; if pick < 0 { ... break }`
  unfoldable pub pick_from : ℤ → List A → Option A
  pick_from pick [] = none
  pick_from pick (x ∷ xs) =
      let left = pick -ℤ weight x in
      let later = pick_from left xs in if ltb_ℤ left (pos 0) then some x else later

  -- The choice for a request, if the weights are not all zero.
  unfoldable pub choose : ℤ → List A → Option A
  choose sequence xs =
      let total = total_weight xs in
      if ltb_ℤ (pos 0) total then pick_from (rem_ℤ sequence total) xs else none

abbrev pub task_weight : ScenarioTask → ℤ
task_weight task = task.weight

abbrev pub journey_weight : UserJourney → ℤ
journey_weight journey = journey.weight

-- The task of nextWorkload: `none` leaves the configuration's own prompt.
unfoldable pub next_task : ℤ → List ScenarioTask → Option ScenarioTask
next_task sequence tasks = choose task_weight sequence tasks

-- nextJourney falls back on the first journey; without any, Go panics and this is `none`.
unfoldable pub next_journey : ℤ → List UserJourney → Option UserJourney
next_journey sequence [] = none
next_journey sequence (first ∷ rest) = elim (choose journey_weight sequence (first ∷ rest)) [
  | none ↦ some first
  | some journey ↦ some journey
]

-- Whether the prompt gets a nonce, by the policy and its percentage.
unfoldable pub is_varied : CachePolicy → ℤ → ℤ → Bool
is_varied CachePolicy.bypass percent sequence = true
is_varied CachePolicy.mixed percent sequence =
    ltb_ℤ (rem_ℤ (times_ℤ sequence (pos 37)) (pos 100))
      (if eqb_ℤ percent (pos 0) then pos 30 else percent)
is_varied _ percent sequence = false
