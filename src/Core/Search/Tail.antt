-- ===== src/Core/Search/Tail.antt =====
-- The unstable steps at the end of a search (internal/core/search.go, consecutiveUnstableTail).
use mathlib.Core.Bool.{true≢false}
use mathlib.Core.List.{reverse, reverse-cons, reverse-append, reverse-reverse, append_assoc}
use load_observatory.Prelude.{
  leb, ◌≡◌, refl, sym, ◌∙◌, ap, Bool-cases, inl, inr, true, false, List, [], ◌∷◌, ◌++◌, arith,
}
use load_observatory.Core.Types.{AutoSearchStep}
use load_observatory.Core.Search.{
  unstable_run, consecutive_unstable_tail, unstable_rungs_before_stopping,
}

module _ {F : Type 0} where
  -- The last two steps, in the order in which they were run, were unstable.
  abbrev pub TwoUnstable : List (AutoSearchStep F) → Type 0
  TwoUnstable steps =
      (before : List (AutoSearchStep F)) × (a : AutoSearchStep F) × (b : AutoSearchStep F) × (steps
        ≡ before ++ (a ∷ b ∷ []))
      × (a.stable ≡ false)
      × (b.stable ≡ false)

  -- The same of the reversed steps.
  abbrev Heads : List (AutoSearchStep F) → Type 0
  Heads steps =
      (rest : List (AutoSearchStep F)) × (a : AutoSearchStep F) × (b : AutoSearchStep F) × (steps
        ≡ b ∷ a ∷ rest)
      × (a.stable ≡ false)
      × (b.stable ≡ false)

  Heads-unstable_run :
      (steps : List (AutoSearchStep F)) → leb 2 (unstable_run steps) ≡ true → Heads steps
  unfolding unstable_run
  Heads-unstable_run [] h = absurd (true≢false (sym h))
  Heads-unstable_run (b ∷ []) h = absurd (ground arith)
  Heads-unstable_run (b ∷ a ∷ rest) h = elim (Bool-cases b.stable) [
    | inl stable ↦ absurd (ground arith)
    | inr unstable ↦ elim (Bool-cases a.stable) [
      | inl stable ↦ absurd (ground arith)
      | inr unstable' ↦ (rest, a, b, refl, unstable', unstable)
    ]
  ]

  unstable_run-Heads :
      (steps : List (AutoSearchStep F)) → Heads steps → leb 2 (unstable_run steps) ≡ true
  unfolding unstable_run
  unstable_run-Heads steps (rest, a, b, e, one, two) = rw e (rw (one, two) (ground arith))

  reverse-two :
      (a b : AutoSearchStep F) (rest : List (AutoSearchStep F))
      → reverse (b ∷ a ∷ rest) ≡ reverse rest ++ (a ∷ b ∷ [])
  reverse-two a b rest =
      reverse-cons b (a ∷ rest)
      ∙ ap (λ l. l ++ (b ∷ [])) (reverse-cons a rest)
      ∙ append_assoc (reverse rest) (a ∷ []) (b ∷ [])

  pub TwoUnstable-consecutive_unstable_tail :
      (steps : List (AutoSearchStep F))
      → leb unstable_rungs_before_stopping (consecutive_unstable_tail steps) ≡ true
      → TwoUnstable steps
  unfolding consecutive_unstable_tail
  TwoUnstable-consecutive_unstable_tail steps h =
      let (rest, a, b, e, one, two) = Heads-unstable_run (reverse steps) h in
      (
        reverse rest,
        a,
        b,
        sym (reverse-reverse steps) ∙ ap reverse e ∙ reverse-two a b rest,
        one,
        two,
      )

  pub consecutive_unstable_tail-TwoUnstable :
      (steps : List (AutoSearchStep F))
      → TwoUnstable steps
      → leb unstable_rungs_before_stopping (consecutive_unstable_tail steps) ≡ true
  unfolding consecutive_unstable_tail
  consecutive_unstable_tail-TwoUnstable steps (before, a, b, e, one, two) =
      unstable_run-Heads (reverse steps)
        (reverse before, a, b, ap reverse e ∙ reverse-append before (a ∷ b ∷ []), one, two)
