-- ===== src/Examples/Choices.antt =====
-- The choices of an agent (internal/agent/runner.go): which task a request gets, and how long it waits
-- after failures.
use load_observatory.Prelude.{
  ℕ, suc, ◌/◌, ◌≤◌, ◌<◌, ◌⊎◌, ℤ, pos, ◌+ℤ◌, rem_ℤ, ◌≤ℤ◌, ◌<ℤ◌, ◌≡◌, refl, List, [], ◌∷◌, ◌++◌, some,
  arith,
}
use load_observatory.Core.Types.{ScenarioTask}
use load_observatory.Agent.Workload.{task_weight, total_weight, choose, next_task, pick_from}
use load_observatory.Agent.Workload.Fair.{choose-fair}
use load_observatory.Agent.Backoff.{
  full_backoff, backoff_delay, shifted, capped, backoff_shift, base_backoff, max_backoff,
  circuit_breaker_threshold,
}
use load_observatory.Agent.Backoff.Curve.{backoff_delay-bounds}

abbrev task_of : ℕ → ScenarioTask
task_of weight = record {
  name = "task";
  prompt = "hello";
  weight = pos weight;
  think_time_millis = pos 0;
  max_tokens = pos 0;
  prompt_tokens = pos 0;
}

abbrev two : List ScenarioTask
two = task_of 3 ∷ task_of 2 ∷ []

-- Request 4 of five goes to the second task.
fourth : next_task (pos 4) two ≡ some (task_of 2)
unfolding next_task choose total_weight pick_from rem_ℤ ◌+ℤ◌ load_observatory.Prelude.◌-ℤ◌
fourth = refl

total_two : pos 0 <ℤ total_weight task_weight two
unfolding total_weight ◌+ℤ◌
total_two = omega arith

choose-fair_example :
    ((y : ScenarioTask) × (choose task_weight (pos 4) two ≡ some y))
    × (total_weight task_weight (task_of 3 ∷ []) ≤ℤ rem_ℤ (pos 4) (total_weight task_weight two)
        → rem_ℤ (pos 4) (total_weight task_weight two)
          <ℤ total_weight task_weight (task_of 3 ∷ []) +ℤ pos 2
        → choose task_weight (pos 4) two ≡ some (task_of 2))
choose-fair_example =
    choose-fair task_weight 4 (task_of 3 ∷ []) (task_of 2) [] (omega arith, tt) total_two

third_failure : full_backoff 4 ≡ 1000000000
unfolding full_backoff shifted capped backoff_shift base_backoff max_backoff
    circuit_breaker_threshold load_observatory.Prelude.◌-ℤ◌
third_failure = refl

in_range : 7 ≤ full_backoff 4 / 2
in_range = rw third_failure (omega arith)

backoff_delay-bounds_example :
    (full_backoff 4 / 2 ≤ backoff_delay 4 7)
    × (backoff_delay 4 7 ≤ full_backoff 4)
    × (((4 < 3) × (backoff_delay 4 7 ≡ 0)) ⊎ ((3 ≤ 4) × (250000000 ≤ backoff_delay 4 7)))
    × (backoff_delay 4 7 ≤ 30000000000)
    × (full_backoff 4 ≤ full_backoff 5)
    × (9 ≤ 4 → full_backoff 4 ≡ 30000000000)
backoff_delay-bounds_example = backoff_delay-bounds 4 7 in_range
