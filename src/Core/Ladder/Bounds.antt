-- ===== src/Core/Ladder/Bounds.antt =====
-- The shape of the ladder that SweepLadder plans (internal/core/search.go).
use load_observatory.Prelude.{
  ℕ, zero, suc, ◌*◌, ◌^◌, ◌≤◌, ◌<◌, ◌≡◌, refl, ℤ, pos, ltb, false, List, [], ◌∷◌, ◌++◌, length,
  length-append, arith, Bool-cases, inl, inr, get_elem?, some, ◌-◌,
}
use native.Mathlib.Nat.{pow-suc}
use load_observatory.Core.Ladder.{
  clamp_start, clamp_max, doublings, ends_at, max_doublings, sweep_ladder,
}

-- Strictly rising from above `low`, and never above `high`.
abbrev pub Rising : ℕ → List ℕ → ℕ → Type 0
Rising low [] high = low ≤ high
Rising low (x ∷ xs) high = (low < x) × Rising x xs high

-- The last element, `low` for none.
abbrev pub last_or : ℕ → List ℕ → ℕ
last_or low [] = low
last_or low (x ∷ xs) = last_or x xs

-- Each element is at most twice the one before.
abbrev pub AtMostDoubling : ℕ → List ℕ → Type 0
AtMostDoubling low [] = Unit {0}
AtMostDoubling low (x ∷ xs) = (x ≤ low * 2) × AtMostDoubling x xs

-- The rungs of the loop are below `max`, so the closing test never finds `max` at the end.
pub doublings-open : (room load max : ℕ) → ends_at (doublings room load max) max ≡ false
unfolding doublings ends_at
doublings-open zero load max = refl
doublings-open (suc zero) load max = ground arith
doublings-open (suc (suc room)) load max = ground (arith, doublings-open (suc room) (load * 2) max)

pub doublings-Rising :
    (room load max low : ℕ)
    → low < load
    → low < max
    → 0 < load
    → Rising low (doublings room load max ++ (max ∷ [])) max
unfolding doublings
doublings-Rising zero load max low h k p = omega arith
doublings-Rising (suc room) load max low h k p = elim (Bool-cases (ltb load max)) [
  | inl more ↦
      rw more
        (h, doublings-Rising room (load * 2) max load (omega arith) (ground arith) (omega arith))
  | inr done ↦ rw done (omega arith)
]

last_or-append : (low : ℕ) (xs : List ℕ) (m : ℕ) → last_or low (xs ++ (m ∷ [])) ≡ m
last_or-append low [] m = refl
last_or-append low (x ∷ xs) m = last_or-append x xs m

length-doublings : (room load max : ℕ) → length (doublings room load max) ≤ room
unfolding doublings
length-doublings zero load max = omega arith
length-doublings (suc room) load max = ground (arith, length-doublings room (load * 2) max)

sweep_ladder_lem :
    (start max : ℤ)
    → let s = clamp_start start in
      let m = clamp_max s max in sweep_ladder start max ≡ doublings max_doublings s m ++ (m ∷ [])
unfolding sweep_ladder
sweep_ladder_lem start max =
    rw (doublings-open 12 (clamp_start start) (clamp_max (clamp_start start) max))

clamps_ordered :
    (start max : ℤ)
    → (0 < clamp_start start) × (clamp_start start ≤ clamp_max (clamp_start start) max)
unfolding clamp_start clamp_max
clamps_ordered start max = ground arith

doublings_head :
    (room s m : ℕ) → s ≤ m → get_elem? (doublings (suc room) s m ++ (m ∷ [])) 0 ≡ some s
unfolding doublings
doublings_head room s m h = ground arith

-- For every start and end, clamped to `1 ≤ s ≤ m`: the ladder begins at `s`, rises strictly, stays at
-- or below `m`, ends exactly at `m`, and has at most 13 rungs.
pub sweep_ladder_shape :
    (start max : ℤ)
    → let s = clamp_start start in
      let m = clamp_max s max in
      (get_elem? (sweep_ladder start max) 0 ≡ some s)
      × Rising (s - 1) (sweep_ladder start max) m
      × (last_or 0 (sweep_ladder start max) ≡ m)
      × (length (sweep_ladder start max) ≤ 13)
unfolding max_doublings
sweep_ladder_shape start max =
    let s = clamp_start start in
    let m = clamp_max s max in
    let ordered : (0 < s) × (s ≤ m) = clamps_ordered start max in
    rw (sweep_ladder_lem start max) (
      doublings_head 11 s m ordered.1,
      doublings-Rising 12 s m (s - 1) (omega arith) (omega arith) ordered.0,
      last_or-append 0 (doublings 12 s m) m,
      omega (arith, length-append (doublings 12 s m) (m ∷ []), length-doublings 12 s m),
    )

doubled : (room load max : ℕ) → max ≤ load * 2 ^ suc room → max ≤ load * 2 * 2 ^ room
doubled room load max h =
    let k : max ≤ load * (2 ^ room * 2) = rw (pow-suc 2 room) at h in omega arith

doublings-AtMostDoubling :
    (room load max low : ℕ)
    → max ≤ load * 2 ^ room
    → load ≤ low * 2
    → AtMostDoubling low (doublings room load max ++ (max ∷ []))
unfolding doublings
doublings-AtMostDoubling zero load max low h k = (omega arith, tt)
doublings-AtMostDoubling (suc room) load max low h k = elim (Bool-cases (ltb load max)) [
  | inl more ↦
      rw more (
        k,
        doublings-AtMostDoubling room (load * 2) max load (doubled room load max h) (omega arith),
      )
  | inr done ↦ rw done (ground arith, tt)
]

-- For ends with `1 ≤ s ≤ m ≤ 4096 s`, as every validated search has, no rung is more than twice the rung
-- before it: the ladder samples the whole range and its last step is no jump.
pub sweep_ladder_resolution :
    (s m : ℕ) → 0 < s → s ≤ m → m ≤ s * 4096 → AtMostDoubling s (sweep_ladder (pos s) (pos m))
unfolding clamp_start clamp_max max_doublings
sweep_ladder_resolution s m p h k =
    let s_eq : clamp_start (pos s) ≡ s = ground arith in
    let m_eq : clamp_max s (pos m) ≡ m = ground arith in
    rw (sweep_ladder_lem (pos s) (pos m))
      (rw s_eq (rw m_eq (doublings-AtMostDoubling 12 s m s k (omega arith))))
