-- ===== src/Core/Search/Knee.antt =====
-- KneeLoad (internal/core/search.go) against a description of the knee that does not sort.
use mathlib.Core.List.{Memᴰ}
use load_observatory.Prelude.{
  ℤ, pos, ◌≤ℤ◌, ◌<ℤ◌, ◌≡◌, refl, ◌⊎◌, inl, inr, true, false, List, [], ◌∷◌, All, All-map, sym,
  subst, arith, Bool-cases,
}
use load_observatory.Prelude.Sorting.{
  sort_by, IsSorted, sort-IsSorted, All-sort, All-of_sort, mem_of_sort,
}
use load_observatory.Core.Types.{AutoSearchStep}
use load_observatory.Core.Search.{knee_from, step_load, knee_load}

module _ {F : Type 0} where
  -- `knee` is 0, or the load of a stable step.
  abbrev pub IsReached : ℤ → List (AutoSearchStep F) → Type 0
  IsReached knee steps =
      (knee ≡ pos 0) ⊎ ((s : AutoSearchStep F) × Memᴰ s steps × (s.stable ≡ true) × (s.load ≡ knee))

  -- Every step below the knee is stable.
  abbrev pub HoldsBelow : ℤ → List (AutoSearchStep F) → Type 0
  HoldsBelow knee steps = All (λ s. s.load <ℤ knee → s.stable ≡ true) steps

  -- No step passes the knee, or an unstable step does and no step lies strictly between.
  abbrev pub StopsAbove : ℤ → List (AutoSearchStep F) → Type 0
  StopsAbove knee steps =
      All (λ s. s.load ≤ℤ knee) steps
      ⊎ ((failed : AutoSearchStep F) × Memᴰ failed steps
          × (failed.stable ≡ false)
          × (knee ≤ℤ failed.load)
          × All (λ s. (s.load ≤ℤ knee) ⊎ (failed.load ≤ℤ s.load)) steps)

  knee-stable :
      (low : ℤ) (x : AutoSearchStep F) (xs : List (AutoSearchStep F))
      → x.stable ≡ true
      → knee_from low (x ∷ xs) ≡ knee_from x.load xs
  unfolding knee_from
  knee-stable low x xs good = ground arith

  knee-unstable :
      (low : ℤ) (x : AutoSearchStep F) (xs : List (AutoSearchStep F))
      → x.stable ≡ false
      → knee_from low (x ∷ xs) ≡ low
  unfolding knee_from
  knee-unstable low x xs bad = ground arith

  walk_up :
      (low : ℤ) (xs : List (AutoSearchStep F))
      → IsSorted step_load xs
      → All (λ s. low ≤ℤ s.load) xs
      → low ≤ℤ knee_from low xs
  unfolding knee_from step_load
  walk_up low [] s h = omega arith
  walk_up low (x ∷ xs) s h = ground (arith, walk_up x.load xs s.1 s.0)

  walk_holds :
      (low : ℤ) (xs : List (AutoSearchStep F))
      → IsSorted step_load xs
      → All (λ s. low ≤ℤ s.load) xs
      → HoldsBelow (knee_from low xs) xs
  unfolding step_load
  walk_holds low [] s h = tt
  walk_holds low (x ∷ xs) s h = elim (Bool-cases x.stable) [
    | inl good ↦
        subst (λ k. HoldsBelow k (x ∷ xs)) (sym (knee-stable low x xs good))
          ((λ _. good), walk_holds x.load xs s.1 s.0)
    | inr bad ↦
        subst (λ k. HoldsBelow k (x ∷ xs)) (sym (knee-unstable low x xs bad))
          (All-map (λ y. low ≤ℤ y.load) (λ y. y.load <ℤ low → y.stable ≡ true)
            (λ y above below. absurd (omega arith)) (x ∷ xs) h)
  ]

  abbrev WalkReached : ℤ → ℤ → List (AutoSearchStep F) → Type 0
  WalkReached low knee xs =
      (knee ≡ low) ⊎ ((s : AutoSearchStep F) × Memᴰ s xs × (s.stable ≡ true) × (s.load ≡ knee))

  reached_after :
      (low knee : ℤ) (x : AutoSearchStep F) (xs : List (AutoSearchStep F))
      → x.stable ≡ true
      → WalkReached x.load knee xs
      → WalkReached low knee (x ∷ xs)
  reached_after low knee x xs good (inl e) = inr (x, Memᴰ.head refl, good, sym e)
  reached_after low knee x xs good (inr (s, m, g, e)) = inr (s, Memᴰ.tail m, g, e)

  walk_reached : (low : ℤ) (xs : List (AutoSearchStep F)) → WalkReached low (knee_from low xs) xs
  unfolding knee_from
  walk_reached low [] = inl refl
  walk_reached low (x ∷ xs) = elim (Bool-cases x.stable) [
    | inl good ↦
        subst (λ k. WalkReached low k (x ∷ xs)) (sym (knee-stable low x xs good))
          (reached_after low (knee_from x.load xs) x xs good (walk_reached x.load xs))
    | inr bad ↦ inl (knee-unstable low x xs bad)
  ]

  stops_after :
      (knee : ℤ) (x : AutoSearchStep F) (xs : List (AutoSearchStep F))
      → x.load ≤ℤ knee
      → StopsAbove knee xs
      → StopsAbove knee (x ∷ xs)
  stops_after knee x xs h (inl below) = inl (h, below)
  stops_after knee x xs h (inr (failed, m, bad, above, rest)) =
      inr (failed, Memᴰ.tail m, bad, above, (inl h, rest))

  walk_stops :
      (low : ℤ) (xs : List (AutoSearchStep F))
      → IsSorted step_load xs
      → All (λ s. low ≤ℤ s.load) xs
      → StopsAbove (knee_from low xs) xs
  unfolding step_load
  walk_stops low [] s h = inl tt
  walk_stops low (x ∷ xs) s h = elim (Bool-cases x.stable) [
    | inl good ↦
        subst (λ k. StopsAbove k (x ∷ xs)) (sym (knee-stable low x xs good))
          (stops_after (knee_from x.load xs) x xs (walk_up x.load xs s.1 s.0)
            (walk_stops x.load xs s.1 s.0))
    | inr bad ↦
        subst (λ k. StopsAbove k (x ∷ xs)) (sym (knee-unstable low x xs bad))
          (inr (
            x,
            Memᴰ.head refl,
            bad,
            h.0,
            (
              inr (omega arith),
              All-map (λ y. x.load ≤ℤ y.load) (λ y. (y.load ≤ℤ low) ⊎ (x.load ≤ℤ y.load))
                  (λ y above. inr above) xs s.0,
            ),
          ))
  ]

  IsReached-unsorted :
      (knee : ℤ) (steps : List (AutoSearchStep F))
      → WalkReached (pos 0) knee (sort_by step_load steps)
      → IsReached knee steps
  IsReached-unsorted knee steps (inl e) = inl e
  IsReached-unsorted knee steps (inr (s, m, g, e)) = inr (s, mem_of_sort step_load s steps m, g, e)

  stops_unsorted :
      (knee : ℤ) (steps : List (AutoSearchStep F))
      → StopsAbove knee (sort_by step_load steps)
      → StopsAbove knee steps
  stops_unsorted knee steps (inl below) = inl (All-of_sort step_load _ steps below)
  stops_unsorted knee steps (inr (failed, m, bad, above, rest)) =
      inr (
        failed,
        mem_of_sort step_load failed steps m,
        bad,
        above,
        All-of_sort step_load _ steps rest,
      )

  -- For steps with loads of at least 0, in any order: KneeLoad is 0 or the load of a stable step; every
  -- step below it is stable; and either no step lies above it, or an unstable step is at or above it
  -- with no step strictly between the two.
  pub knee_load_correct :
      (steps : List (AutoSearchStep F))
      → All (λ s. pos 0 ≤ℤ s.load) steps
      → IsReached (knee_load steps) steps
        × HoldsBelow (knee_load steps) steps
        × StopsAbove (knee_load steps) steps
  unfolding knee_load
  knee_load_correct steps h =
      let sorted = sort_by step_load steps in
      let s : IsSorted step_load sorted = sort-IsSorted step_load steps in
      let low : All (λ s. pos 0 ≤ℤ s.load) sorted =
        All-sort step_load (λ s. pos 0 ≤ℤ s.load) steps h in
      (
        IsReached-unsorted (knee_from (pos 0) sorted) steps (walk_reached (pos 0) sorted),
        All-of_sort step_load _ steps (walk_holds (pos 0) sorted s low),
        stops_unsorted (knee_from (pos 0) sorted) steps (walk_stops (pos 0) sorted s low),
      )
