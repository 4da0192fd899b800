-- ===== src/Agent/Backoff.antt =====
-- internal/agent/runner.go: backoffBeforeAttempt and backoffDelay, the circuit breaker. Durations are
-- nanoseconds; `random` is what rand.Int63n returns.
pub mod Curve
use load_observatory.Prelude.{
  ℕ, suc, ◌+◌, ◌*◌, ◌/◌, ◌^◌, ltb, ℤ, pos, negsuc, ltb_ℤ, ◌+ℤ◌, ◌-ℤ◌, if◌then◌else◌, Option, none,
  some,
}
use load_observatory.Agent.Records.{Measurements}

unfoldable pub circuit_breaker_threshold : ℕ
circuit_breaker_threshold = 3

unfoldable pub base_backoff : ℕ
base_backoff = 500000000

unfoldable pub max_backoff : ℕ
max_backoff = 30000000000

-- Negative below the threshold. `500ms << 6` is past the maximum already.
unfoldable pub backoff_shift : ℕ → ℤ
unfolding circuit_breaker_threshold
backoff_shift failures =
    let shift = pos failures -ℤ pos circuit_breaker_threshold in
    if ltb_ℤ (pos 6) shift then pos 6 else shift

-- `500ms << uint(shift)`: a negative shift is a count past the 64 bits as a uint, and leaves 0.
unfoldable pub shifted : ℤ → ℕ
unfolding base_backoff
shifted (pos shift) = base_backoff * 2 ^ shift
shifted (negsuc n) = 0

-- The shifted delay, up to the maximum.
unfoldable pub capped : ℤ → ℕ
unfolding max_backoff
capped shift = let delay = shifted shift in if ltb max_backoff delay then max_backoff else delay

-- The delay before the jitter.
unfoldable pub full_backoff : ℕ → ℕ
full_backoff failures = capped (backoff_shift failures)

-- `delay/2 + rand.Int63n(delay/2 + 1)`
unfoldable pub backoff_delay : ℕ → ℕ → ℕ
backoff_delay failures random = full_backoff failures / 2 + random

-- The state after it, and how long the attempt is held back.
unfoldable pub backoff_before_attempt : ℕ → Measurements → Measurements × ℕ
unfolding circuit_breaker_threshold
backoff_before_attempt random m =
    let delay = backoff_delay m.consecutive_failures random in
    if ltb m.consecutive_failures circuit_breaker_threshold then (m, 0) else (
      record m {
        backoff_events = suc m.backoff_events;
        backoff_millis = m.backoff_millis +ℤ pos (delay / 1000000);
      },
      delay,
    )
