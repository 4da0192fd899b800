-- ===== src/Store/Guards.antt =====
-- CancelRun and DeleteTarget (internal/store/store.go): what a cancelled run leaves, and which targets
-- can go.
use mathlib.Core.Bool.{true≢false}
use load_observatory.Prelude.{
  ℕ, ◌==◌, ==_iff, ◌≡◌, refl, sym, ◌∙◌, Bool, true, false, ◌&&◌, Bool-cases, Option-cases, inl, inr,
  List, [], ◌∷◌, Option, none, some, if◌then◌else◌, arith,
}
use load_observatory.Prelude.Map.{
  lookup, insert, lookup-insert, lookup-delete, lookup-update_all, map_option,
}
use load_observatory.Core.Types.{Run, Shard, cancelled}
use load_observatory.Store.{MemoryStore, is_active, is_queued, shard_cancelled, cancel_run}
use load_observatory.Store.Records.{
  DeleteTargetResult, target_deleted, target_not_found, target_in_use, in_use, delete_target,
}

shard_cancelled-waits :
    (id : ℕ) (shard : Shard)
    → (shard_cancelled id shard).run_id ≡ id
    → is_queued (shard_cancelled id shard).status ≡ false
unfolding shard_cancelled
shard_cancelled-waits id shard =
    elim (Bool-cases ((shard.run_id == id) && is_queued shard.status)) [
      | inl both ↦ rw both (λ e. refl)
      | inr neither ↦ rw neither (λ e.
          let mine : (shard.run_id == id) ≡ true = (==_iff shard.run_id id).1 e in ground arith)
    ]

second_false : (a b : Bool) → a && b ≡ false → a ≡ true → b ≡ false
second_false a b h k = ground arith

-- The shard, if there is one, does not wait, if it is the run's.
abbrev pub NotWaiting : ℕ → Option Shard → Type 0
NotWaiting id none = Unit
NotWaiting id (some shard) = shard.run_id ≡ id → is_queued shard.status ≡ false

NotWaiting-map_option :
    (id : ℕ) (o : Option Shard) → NotWaiting id (map_option (shard_cancelled id) o)
NotWaiting-map_option id none = tt
NotWaiting-map_option id (some shard) = shard_cancelled-waits id shard

module _ {F : Type 0} where
  -- Cancelling an active run, in any state, leaves it cancelled under its key and returns it so, and leaves
  -- no shard of it waiting: no agent is given one any more.
  pub cancel_run-NotWaiting :
      (s : MemoryStore F) (id : ℕ) (run : Run F)
      → lookup id s.runs ≡ some run
      → is_active run.status ≡ true
      → let t = (cancel_run s id).0 in
        (lookup id t.runs ≡ some (record run { status = cancelled }))
        × ((cancel_run s id).1 ≡ some (record run { status = cancelled }))
        × ((k : ℕ) → NotWaiting id (lookup k t.shards))
  unfolding cancel_run
  cancel_run-NotWaiting s id run found active =
      rw (found, cancel_run)
        (rw active (
          written,
          refl,
          λ k.
              rw (lookup-update_all (shard_cancelled id) k s.shards)
                (NotWaiting-map_option id (lookup k s.shards)),
        ))
    where
      written :
          lookup id (insert id (record run { status = cancelled }) s.runs)
          ≡ some (record run { status = cancelled })
      written =
          let same : (id == id) ≡ true = (==_iff id id).1 refl in
          lookup-insert id id (record run { status = cancelled }) s.runs ∙ rw same refl

  -- A run that does not hold the target.
  abbrev pub Releases : ℕ → Option (Run F) → Type 0
  Releases id none = Unit
  Releases id (some run) = run.config.target_id ≡ id → is_active run.status ≡ false

  Releases-in_use :
      (id k : ℕ) (runs : List (ℕ × Run F)) → in_use id runs ≡ false → Releases id (lookup k runs)
  unfolding in_use lookup
  Releases-in_use id k [] h = tt
  Releases-in_use id k ((key, run) ∷ rest) h =
      elim (Bool-cases ((run.config.target_id == id) && is_active run.status)) [
        | inl holds ↦ absurd (true≢false (sym (rw holds refl) ∙ h))
        | inr free ↦
            let later : in_use id rest ≡ false = sym (rw free refl) ∙ h in
            elim (Bool-cases (key == k)) [
              | inl same ↦ rw same (λ e.
                  second_false (run.config.target_id == id) (is_active run.status) free
                    ((==_iff run.config.target_id id).1 e))
              | inr differ ↦ rw differ (Releases-in_use id k rest later)
            ]
      ]

  -- What deleting a target comes to.
  abbrev pub Deletes : MemoryStore F → ℕ → MemoryStore F × DeleteTargetResult → Type 0
  Deletes s id (t, target_deleted) =
      ((k : ℕ) → Releases id (lookup k s.runs))
      × ((j : ℕ) → lookup j t.targets ≡ (if id == j then none else lookup j s.targets))
  Deletes s id (t, target_not_found) = (lookup id s.targets ≡ none) × (t ≡ s)
  Deletes s id (t, target_in_use) = (in_use id s.runs ≡ true) × (t ≡ s)

  -- Deleting a target, in any state: it goes only if no run that is queued or running uses it, and no
  -- other target goes with it; if it is missing or in use, nothing changes.
  pub delete_target-Deletes : (s : MemoryStore F) (id : ℕ) → Deletes s id (delete_target s id)
  unfolding delete_target
  delete_target-Deletes s id = elim (Option-cases (lookup id s.targets)) [
    | inl missing ↦ rw (missing, delete_target) (missing, refl)
    | inr (target, found) ↦
        rw (found, delete_target)
          (elim (Bool-cases (in_use id s.runs)) [
            | inl used ↦ rw used (used, refl)
            | inr free ↦
                rw free (λ k. Releases-in_use id k s.runs free, λ j. lookup-delete id j s.targets)
          ])
  ]
