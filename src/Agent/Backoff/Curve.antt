-- ===== src/Agent/Backoff/Curve.antt =====
-- The curve of the circuit breaker in internal/agent/runner.go.
use load_observatory.Prelude.{
  ℕ, zero, suc, ◌/◌, ltb, if◌then◌else◌, ◌≤◌, ◌<◌, pos, negsuc, ◌≡◌, refl, ◌⊎◌, inl, inr, arith,
}
use load_observatory.Agent.Backoff.{
  circuit_breaker_threshold, base_backoff, max_backoff, backoff_shift, full_backoff, shifted,
  capped, backoff_delay,
}

capped-range :
    (shift : ℕ)
    → shift ≤ 6
    → (500000000 ≤ capped (pos shift))
      × (capped (pos shift) ≤ 30000000000)
      × (capped (pos shift) ≤ capped (pos (suc shift)))
unfolding capped shifted base_backoff max_backoff
capped-range zero h = (omega arith, omega arith, omega arith)
capped-range (suc zero) h = (omega arith, omega arith, omega arith)
capped-range (suc (suc zero)) h = (omega arith, omega arith, omega arith)
capped-range (suc (suc (suc zero))) h = (omega arith, omega arith, omega arith)
capped-range (suc (suc (suc (suc zero)))) h = (omega arith, omega arith, omega arith)
capped-range (suc (suc (suc (suc (suc zero))))) h = (omega arith, omega arith, omega arith)
capped-range (suc (suc (suc (suc (suc (suc zero)))))) h = (omega arith, omega arith, omega arith)
capped-range (suc (suc (suc (suc (suc (suc (suc n))))))) h = absurd (omega (arith, h))

capped_negative : (n : ℕ) → capped (negsuc n) ≡ 0
unfolding capped shifted max_backoff
capped_negative n = refl

-- The shift once the threshold is passed by some failures.
abbrev past : ℕ → ℕ
past more = if ltb 6 more then 6 else more

backoff_shift-past : (more : ℕ) → backoff_shift (suc (suc (suc more))) ≡ pos (past more)
unfolding backoff_shift circuit_breaker_threshold load_observatory.Prelude.◌-ℤ◌
backoff_shift-past more = ground arith

full_backoff_few : (failures : ℕ) → failures < 3 → full_backoff failures ≡ 0
unfolding full_backoff backoff_shift circuit_breaker_threshold load_observatory.Prelude.◌-ℤ◌
full_backoff_few zero h = capped_negative _
full_backoff_few (suc zero) h = capped_negative _
full_backoff_few (suc (suc zero)) h = capped_negative _
full_backoff_few (suc (suc (suc more))) h = absurd (omega (arith, h))

full_backoff-past : (more : ℕ) → full_backoff (suc (suc (suc more))) ≡ capped (pos (past more))
unfolding full_backoff
full_backoff-past more = rw (backoff_shift-past more) refl

capped_last : capped (pos 6) ≡ 30000000000
unfolding capped shifted base_backoff max_backoff
capped_last = refl

full_backoff_mono : (failures : ℕ) → full_backoff failures ≤ full_backoff (suc failures)
full_backoff_mono zero = rw (full_backoff_few 0 (omega arith)) (omega arith)
full_backoff_mono (suc zero) = rw (full_backoff_few 1 (omega arith)) (omega arith)
full_backoff_mono (suc (suc zero)) = rw (full_backoff_few 2 (omega arith)) (omega arith)
full_backoff_mono (suc (suc (suc more))) =
    rw (full_backoff-past more, full_backoff-past (suc more))
      (elim few [
        | inl low ↦ rw (low.0, low.1) (rises low.2)
        | inr high ↦ rw (high.0, high.1) (omega arith)
      ])
  where
    rises : more ≤ 6 → capped (pos more) ≤ capped (pos (suc more))
    rises h = let (_, _, up) = capped-range more h in up

    few :
        ((past more ≡ more) × (past (suc more) ≡ suc more) × (more ≤ 6))
        ⊎ ((past more ≡ 6) × (past (suc more) ≡ 6))
    few = ground arith

-- Below the threshold there is no delay; from it on it is between half a second and 30 seconds.
abbrev Graded : ℕ → Type 0
Graded failures =
    ((failures < 3) × (full_backoff failures ≡ 0))
    ⊎ ((3 ≤ failures) × (500000000 ≤ full_backoff failures))

full_backoff-Graded : (failures : ℕ) → Graded failures
full_backoff-Graded zero = inl (omega arith, full_backoff_few 0 (omega arith))
full_backoff-Graded (suc zero) = inl (omega arith, full_backoff_few 1 (omega arith))
full_backoff-Graded (suc (suc zero)) = inl (omega arith, full_backoff_few 2 (omega arith))
full_backoff-Graded (suc (suc (suc more))) =
    let (low, _, _) = capped-range (past more) (ground arith) in
    rw (full_backoff-past more) (inr (omega arith, low))

full_backoff_most : (failures : ℕ) → full_backoff failures ≤ 30000000000
full_backoff_most zero = rw (full_backoff_few 0 (omega arith)) (omega arith)
full_backoff_most (suc zero) = rw (full_backoff_few 1 (omega arith)) (omega arith)
full_backoff_most (suc (suc zero)) = rw (full_backoff_few 2 (omega arith)) (omega arith)
full_backoff_most (suc (suc (suc more))) =
    let (_, high, _) = capped-range (past more) (ground arith) in rw (full_backoff-past more) high

full_backoff_late : (failures : ℕ) → 9 ≤ failures → full_backoff failures ≡ 30000000000
full_backoff_late zero h = absurd (omega (arith, h))
full_backoff_late (suc zero) h = absurd (omega (arith, h))
full_backoff_late (suc (suc zero)) h = absurd (omega (arith, h))
full_backoff_late (suc (suc (suc more))) h =
    let last : past more ≡ 6 = ground arith in rw (full_backoff-past more, last) capped_last

-- With a jitter as rand.Int63n gives it, at most half of the delay: backoffDelay is between half a delay
-- and a delay, and at most 30 seconds. Below 3 failures in a row the delay is 0, the shift being negative;
-- from 3 on what it gives is at least 250 milliseconds. The delay never falls with the number of
-- failures, and is 30 seconds from 9 failures in a row on.
pub backoff_delay-bounds :
    (failures random : ℕ)
    → random ≤ full_backoff failures / 2
    → (full_backoff failures / 2 ≤ backoff_delay failures random)
      × (backoff_delay failures random ≤ full_backoff failures)
      × (((failures < 3) × (backoff_delay failures random ≡ 0))
          ⊎ ((3 ≤ failures) × (250000000 ≤ backoff_delay failures random)))
      × (backoff_delay failures random ≤ 30000000000)
      × (full_backoff failures ≤ full_backoff (suc failures))
      × (9 ≤ failures → full_backoff failures ≡ 30000000000)
unfolding backoff_delay
backoff_delay-bounds failures random h =
    let most = full_backoff_most failures in
    (
      omega arith,
      omega (arith, h),
      elim (full_backoff-Graded failures) [
        | inl (few, nil) ↦ inl (few, omega (arith, h, nil))
        | inr (many, low) ↦ inr (many, omega (arith, low))
      ],
      omega (arith, h, most),
      full_backoff_mono failures,
      full_backoff_late failures,
    )
