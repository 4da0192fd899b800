-- ===== src/Monitor/Attempts.antt =====
-- internal/monitor/monitor.go: one attempt to resolve a metric, and what it leaves in the resolver.
use load_observatory.Prelude.{
  ℕ, ℤ, ltb_ℤ, ◌+ℤ◌, ◌≤ℤ◌, ◌≡◌, ◌≢◌, refl, sym, ◌∙◌, ap, subst, true, Bool-cases, Option-cases, ◌⊎◌,
  inl, inr, List, [], ◌∷◌, Option, none, some, All, In, String, arith,
}
use load_observatory.Prelude.Map.{lookup, lookup-insert, lookup-delete}
use load_observatory.Monitor.{
  Resolver, Outcome, recalled, found, waiting, missing, probe, attempt, note, value_of,
  absent_retry_interval,
}
use load_observatory.Monitor.Table.{Candidate}

module _ {F : Type 0} (ask : String → Option F) (now : ℤ) where
  -- Some candidate answers.
  abbrev pub Answered : List Candidate → F → Type 0
  Answered candidates value =
      (option : Candidate) × In option candidates × (ask option.expression ≡ some value)

  probe-cases :
      (candidates : List Candidate)
      → ((option : Candidate) × (value : F) × In option candidates
          × (ask option.expression ≡ some value)
          × (probe ask candidates ≡ found option value))
        ⊎ ((probe ask candidates ≡ missing)
            × All (λ option. ask option.expression ≡ none) candidates)
  unfolding probe
  probe-cases [] = inr (refl, tt)
  probe-cases (option ∷ rest) = elim (Option-cases (ask option.expression)) [
    | inr (value, answers) ↦ inl (option, value, inl refl, answers, rw (answers, probe) refl)
    | inl silent ↦ elim (probe-cases rest) [
      | inl (other, value, there, answers, first) ↦
          inl (other, value, inr there, answers, rw (silent, probe) first)
      | inr (nothing, all) ↦ inr (rw (silent, probe) nothing, (silent, all))
    ]
  ]

-- What the resolver holds for a metric.
abbrev pub Entry : Type 0
Entry = Option Candidate × Option ℤ

abbrev pub entry : ℕ → Resolver → Entry
entry key state = (lookup key state.resolved, lookup key state.absent)

-- A remembered candidate is the metric's own, and a wait is over at `bound`.
abbrev pub Remembers : List Candidate → Option Candidate → Type 0
Remembers candidates none = Unit
Remembers candidates (some option) = In option candidates

abbrev pub Waits : ℤ → Option ℤ → Type 0
Waits bound none = Unit
Waits bound (some retry_at) = retry_at ≤ℤ bound

module _ {F : Type 0} where
  pub entry_after : ℤ → Outcome F → Entry → Entry
  entry_after now (recalled option value) held = held
  entry_after now waiting held = held
  entry_after now (found option value) held = (some option, none)
  entry_after now missing held = (none, some (now +ℤ absent_retry_interval))

  pub entry-note :
      (key : ℕ) (now : ℤ) (outcome : Outcome F) (state : Resolver)
      → entry key (note key now outcome state) ≡ entry_after now outcome (entry key state)
  unfolding note entry_after
  entry-note key now (recalled option value) state = refl
  entry-note key now waiting state = refl
  entry-note key now (found option value) state =
      ground
        (arith, lookup-insert key key option state.resolved, lookup-delete key key state.absent)
  entry-note key now missing state = ground (
    arith,
    lookup-insert key key (now +ℤ absent_retry_interval) state.absent,
    lookup-delete key key state.resolved,
  )

  pub entry-note_other :
      (key other : ℕ) (now : ℤ) (outcome : Outcome F) (state : Resolver)
      → key ≢ other
      → entry other (note key now outcome state) ≡ entry other state
  unfolding note
  entry-note_other key other now (recalled option value) state h = refl
  entry-note_other key other now waiting state h = refl
  entry-note_other key other now (found option value) state h =
      ground
        (arith, lookup-insert key other option state.resolved, lookup-delete key other state.absent)
  entry-note_other key other now missing state h = ground (
    arith,
    lookup-insert key other (now +ℤ absent_retry_interval) state.absent,
    lookup-delete key other state.resolved,
  )

  module _ (ask : String → Option F) (now : ℤ) (candidates : List Candidate) where
    probe-Answered :
        (value : F)
        → value_of (probe ask candidates) ≡ some value
        → Answered ask now candidates value
    probe-Answered value h = elim (probe-cases ask now candidates) [
      | inl (option, answer, own, answers, first) ↦
          let e : some answer ≡ some value = rw first at h in (option, own, answers ∙ e)
      | inr (nothing, silent) ↦ absurd (let e = rw nothing at h in cc)
    ]

    -- An attempt recalls the remembered candidate, waits, or probes all of them.
    attempt-cases :
        (held : Option Candidate) (retry_at : Option ℤ)
        → let outcome = attempt ask now held retry_at candidates in
          ((option : Candidate) × (answer : F) × (held ≡ some option)
            × (ask option.expression ≡ some answer)
            × (outcome ≡ recalled option answer))
          ⊎ (((time : ℤ) × (retry_at ≡ some time) × (ltb_ℤ now time ≡ true) × (outcome ≡ waiting))
              ⊎ (outcome ≡ probe ask candidates))
    unfolding attempt
    attempt-cases (some option) retry_at = elim (Option-cases (ask option.expression)) [
      | inr (answer, answers) ↦ inl (option, answer, refl, answers, rw (answers, attempt) refl)
      | inl silent ↦ inr (inr (rw (silent, attempt) refl))
    ]
    attempt-cases none none = inr (inr refl)
    attempt-cases none (some time) = elim (Bool-cases (ltb_ℤ now time)) [
      | inl early ↦ inr (inl (time, refl, early, rw (early, attempt) refl))
      | inr due ↦ inr (inr (rw (due, attempt) refl))
    ]

    pub attempt-Answered :
        (held : Option Candidate) (retry_at : Option ℤ) (value : F)
        → Remembers candidates held
        → value_of (attempt ask now held retry_at candidates) ≡ some value
        → Answered ask now candidates value
    attempt-Answered held retry_at value own h = elim (attempt-cases held retry_at) [
      | inl (option, answer, kept, answers, e) ↦
          let same : some answer ≡ some value = ap value_of (sym e) ∙ h in
          (option, subst (Remembers candidates) kept own, answers ∙ same)
      | inr (inl (time, set, early, e)) ↦
          absurd (let none_seen : none ≡ some value = ap value_of (sym e) ∙ h in cc)
      | inr (inr e) ↦ probe-Answered value (ap value_of (sym e) ∙ h)
    ]

    probe-answers :
        (value : F)
        → Answered ask now candidates value
        → (seen : F) × (value_of (probe ask candidates) ≡ some seen)
    probe-answers value (option, own, answers) = elim (probe-cases ask now candidates) [
      | inl (first, seen, mine, says, e) ↦ (seen, rw e refl)
      | inr (nothing, silent) ↦ absurd (clash candidates own silent)
    ]
      where
        clash :
            (options : List Candidate)
            → In option options
            → All (λ o. ask o.expression ≡ none) options
            → ⊥
        clash [] there silent = absurd there
        clash (o ∷ rest) (inl e) silent =
            let quiet : ask option.expression ≡ none = ap (λ c. ask c.expression) e ∙ silent.0 in cc
        clash (o ∷ rest) (inr there) silent = clash rest there silent.1

    pub attempt-answers :
        (held : Option Candidate) (retry_at : Option ℤ) (value : F)
        → Waits now retry_at
        → Answered ask now candidates value
        → (seen : F) × (value_of (attempt ask now held retry_at candidates) ≡ some seen)
    attempt-answers held retry_at value due some_answer = elim (attempt-cases held retry_at) [
      | inl (option, answer, kept, answers, e) ↦ (answer, ap value_of e)
      | inr (inl (time, set, early, e)) ↦
          let over : time ≤ℤ now = subst (Waits now) set due in absurd (ground arith)
      | inr (inr e) ↦ rw e (probe-answers value some_answer)
    ]

    -- The invariants of the entry of a metric: its candidate is its own, its wait has a bound.
    entry_after-probe-Remembers :
        (held : Entry)
        → Remembers candidates held.0
        → Remembers candidates (entry_after now (probe ask candidates) held).0
    unfolding entry_after
    entry_after-probe-Remembers held own = elim (probe-cases ask now candidates) [
      | inl (option, answer, mine, answers, first) ↦ rw (first, entry_after) mine
      | inr (nothing, silent) ↦ rw (nothing, entry_after) tt
    ]

    pub entry_after-Remembers :
        (held : Option Candidate) (retry_at : Option ℤ)
        → Remembers candidates held
        → Remembers candidates
            (entry_after now (attempt ask now held retry_at candidates) (held, retry_at)).0
    unfolding entry_after
    entry_after-Remembers held retry_at own = elim (attempt-cases held retry_at) [
      | inl (option, answer, kept, answers, e) ↦ rw (e, entry_after) own
      | inr (inl (time, set, early, e)) ↦ rw (e, entry_after) own
      | inr (inr e) ↦ rw e (entry_after-probe-Remembers (held, retry_at) own)
    ]

    pub entry_after-Waits :
        (bound : ℤ) (outcome : Outcome F) (held : Entry)
        → (now +ℤ absent_retry_interval) ≤ℤ bound
        → Waits bound held.1
        → Waits bound (entry_after now outcome held).1
    unfolding entry_after
    entry_after-Waits bound (recalled option value) held h w = w
    entry_after-Waits bound waiting held h w = w
    entry_after-Waits bound (found option value) held h w = tt
    entry_after-Waits bound missing held h w = h
