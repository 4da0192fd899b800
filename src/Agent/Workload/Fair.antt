-- ===== src/Agent/Workload/Fair.antt =====
-- The choice by weight of internal/agent/runner.go is fair.
use load_observatory.Prelude.{
  ℕ, ◌<◌, ℤ, pos, ◌+ℤ◌, ◌-ℤ◌, +ℤ_parts, -ℤ_parts, ltb_ℤ→≤, negsuc, rem_ℤ, rem_ℤ-pos, ltb_ℤ, ◌≤ℤ◌,
  ◌<ℤ◌, ◌≡◌, refl, true, false, List, [], ◌∷◌, ◌++◌, All, some, arith, Bool-cases, inl, inr,
}
use native.Mathlib.Nat.{mod-lt}
use load_observatory.Agent.Workload.{total_weight, pick_from, choose}

rem_ℤ_bounds :
    (n : ℕ) (total : ℤ)
    → pos 0 <ℤ total
    → (pos 0 ≤ℤ rem_ℤ (pos n) total) × (rem_ℤ (pos n) total <ℤ total)
rem_ℤ_bounds n (pos t) h =
    let some_t : 0 < t = omega (arith, h) in
    rw (rem_ℤ-pos n t) (omega arith, omega (arith, mod-lt n some_t))
rem_ℤ_bounds n (negsuc t) h = absurd (omega (arith, h))

-- `pick - weight`, in bounds.
sub_bounds :
    (pick w low high : ℤ)
    → w +ℤ low ≤ℤ pick
    → pick <ℤ (w +ℤ low) +ℤ high
    → (low ≤ℤ pick -ℤ w) × (pick -ℤ w <ℤ low +ℤ high)
sub_bounds pick w low high a b = (
  omega (arith, a, -ℤ_parts pick w, +ℤ_parts w low),
  omega (arith, b, -ℤ_parts pick w, +ℤ_parts w low, +ℤ_parts (w +ℤ low) high, +ℤ_parts low high),
)

not_below : (a : ℤ) → pos 0 ≤ℤ a → ltb_ℤ a (pos 0) ≡ false
not_below a h = ground arith

is_below : (a : ℤ) → a <ℤ pos 0 → ltb_ℤ a (pos 0) ≡ true
is_below a h = ground arith

is_positive : (a : ℤ) → pos 0 <ℤ a → ltb_ℤ (pos 0) a ≡ true
is_positive a h = ground arith

module _ {A : Type 0} (weight : A → ℤ) where
  total_weight-nonneg :
      (xs : List A) → All (λ y. pos 0 ≤ℤ weight y) xs → pos 0 ≤ℤ total_weight weight xs
  unfolding total_weight
  total_weight-nonneg [] h = omega arith
  total_weight-nonneg (x ∷ xs) (h, hs) =
      omega (arith, h, total_weight-nonneg xs hs, +ℤ_parts (weight x) (total_weight weight xs))

  -- The picks from the weights before an element on, as many as its own weight, choose it.
  pick_from-total_weight :
      (before : List A) (x : A) (after : List A) (pick : ℤ)
      → All (λ y. pos 0 ≤ℤ weight y) before
      → total_weight weight before ≤ℤ pick
      → pick <ℤ total_weight weight before +ℤ weight x
      → pick_from weight pick (before ++ (x ∷ after)) ≡ some x
  unfolding total_weight pick_from
  pick_from-total_weight [] x after pick h low high =
      rw
        (is_below (pick -ℤ weight x)
          (omega (arith, high, -ℤ_parts pick (weight x), +ℤ_parts (pos 0) (weight x))))
        refl
  pick_from-total_weight (y ∷ before) x after pick (h, hs) low high =
      let (low', high') =
        sub_bounds pick (weight y) (total_weight weight before) (weight x) low high in
      rw (not_below (pick -ℤ weight y) (omega (arith, low', total_weight-nonneg before hs)))
        (pick_from-total_weight before x after (pick -ℤ weight y) hs low' high')

  -- A pick below the total chooses something.
  pick_from-some :
      (xs : List A) (pick : ℤ)
      → pick <ℤ total_weight weight xs
      → pos 0 ≤ℤ pick
      → (x : A) × (pick_from weight pick xs ≡ some x)
  unfolding total_weight pick_from
  pick_from-some [] pick high low = absurd (omega (arith, high, low))
  pick_from-some (y ∷ ys) pick high low = elim (Bool-cases (ltb_ℤ (pick -ℤ weight y) (pos 0))) [
    | inl down ↦ (y, rw down refl)
    | inr up ↦
        let (x, e) =
          pick_from-some ys (pick -ℤ weight y)
            (omega
              (arith, high, -ℤ_parts pick (weight y), +ℤ_parts (weight y) (total_weight weight ys)))
            (ltb_ℤ→≤ (pick -ℤ weight y) (pos 0) up) in
        (x, rw up e)
  ]

  -- With weights that are not negative and a total above 0, every request gets an element; and an element
  -- gets the requests whose number, modulo the total, is one of as many residues in a row as its
  -- weight, after those of the elements before it.
  pub choose-fair :
      (n : ℕ) (before : List A) (x : A) (after : List A)
      → All (λ y. pos 0 ≤ℤ weight y) before
      → pos 0 <ℤ total_weight weight (before ++ (x ∷ after))
      → ((y : A) × (choose weight (pos n) (before ++ (x ∷ after)) ≡ some y))
        × (total_weight weight before ≤ℤ rem_ℤ (pos n) (total_weight weight (before ++ (x ∷ after)))
            → rem_ℤ (pos n) (total_weight weight (before ++ (x ∷ after)))
              <ℤ total_weight weight before +ℤ weight x
            → choose weight (pos n) (before ++ (x ∷ after)) ≡ some x)
  unfolding choose
  choose-fair n before x after h positive =
      let total = total_weight weight (before ++ (x ∷ after)) in
      let (low, high) = rem_ℤ_bounds n total positive in
      rw (is_positive total positive) (
        pick_from-some (before ++ (x ∷ after)) (rem_ℤ (pos n) total) high low,
        λ from to. pick_from-total_weight before x after (rem_ℤ (pos n) total) h from to,
      )
