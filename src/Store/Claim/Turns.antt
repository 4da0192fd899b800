-- ===== src/Store/Claim/Turns.antt =====
-- One turn of the loop of ClaimRun (internal/store/store.go), and what it leaves waiting.
use load_observatory.Prelude.{
  ℕ, ℤ, ◌==◌, ==_iff, ◌≡◌, refl, sym, ◌∙◌, ap, Bool, true, false, Bool-cases, Option-cases, inl,
  inr, List, [], ◌∷◌, Option, none, some, if◌then◌else◌,
}
use mathlib.Core.Bool.{true≢false}
use load_observatory.Prelude.Map.{lookup, insert, lookup-insert}
use load_observatory.Core.Types.{Run, Shard, running, cancelled, Target, Assignment}
use load_observatory.Store.{MemoryStore, is_active, is_queued}
use load_observatory.Store.Claim.{hand_out, drop_shard, drop_run, claim_shard, claim_run}

abbrev pub queued_at : Option Shard → Bool
queued_at none = false
queued_at (some shard) = is_queued shard.status

abbrev active_at : {F : Type 0} → Option (Run F) → Bool
active_at none = false
active_at (some run) = is_active run.status

module _ {F : Type 0} where
  -- No shard waits under the key.
  abbrev pub Idle : ℕ → MemoryStore F → Type 0
  Idle k s = queued_at (lookup k s.shards) ≡ false

  -- A state in which one shard was taken out of the queue.
  pub record Takes (k : ℕ) (s t : MemoryStore F) : Type 0 where
    pub status : Shard
    pub not_queued : is_queued status.status ≡ false
    pub written : t.shards ≡ insert k status s.shards

  Idle-Takes : (j k : ℕ) (s t : MemoryStore F) → Takes j s t → Idle k s → Idle k t
  Idle-Takes j k s t taken h = rw taken.written (
      rw (lookup-insert j k taken.status s.shards) (elim (Bool-cases (j == k)) [
        | inl same ↦ rw same taken.not_queued
        | inr differ ↦ rw differ h
      ]))

  pub Idle-taken : (k : ℕ) (s t : MemoryStore F) → Takes k s t → Idle k t
  Idle-taken k s t taken =
      let same : (k == k) ≡ true = (==_iff k k).1 refl in
      rw taken.written (rw (lookup-insert k k taken.status s.shards) (rw same taken.not_queued))

  -- A key whose shard waits after another was taken out of the queue waited before, unchanged.
  pub queued-Takes :
      (j k : ℕ) (s t : MemoryStore F) (shard : Shard)
      → Takes j s t
      → lookup k t.shards ≡ some shard
      → is_queued shard.status ≡ true
      → lookup k s.shards ≡ some shard
  queued-Takes j k s t shard taken e q =
      let after : lookup k t.shards ≡ (if j == k then some taken.status else lookup k s.shards) =
        ap (λ m. lookup k m) taken.written ∙ lookup-insert j k taken.status s.shards in
      elim (Bool-cases (j == k)) [
        | inl same ↦
            absurd
              (true≢false (sym q ∙ ap queued_at (sym e ∙ after ∙ chosen same) ∙ taken.not_queued))
        | inr differ ↦ sym (after ∙ kept differ) ∙ e
      ]
    where
      chosen :
          j == k ≡ true
          → (if j == k then some taken.status else lookup k s.shards) ≡ some taken.status
      chosen same = rw same refl

      kept :
          j == k ≡ false
          → (if j == k then some taken.status else lookup k s.shards) ≡ lookup k s.shards
      kept differ = rw differ refl

  -- A drop leaves the targets, and writes no run but one that is over.
  pub record Drops (s t : MemoryStore F) : Type 0 where
    pub targets : t.targets ≡ s.targets
    pub active_before :
        (id : ℕ) (run : Run F)
        → lookup id t.runs ≡ some run
        → is_active run.status ≡ true
        → lookup id s.runs ≡ some run

  drop_shard-Drops : (s : MemoryStore F) (k : ℕ) (shard : Shard) → Drops s (drop_shard s k shard)
  unfolding drop_shard
  drop_shard-Drops s k shard = record { targets = refl; active_before = λ id run e a. e }

  drop_run-Drops :
      (s : MemoryStore F) (k : ℕ) (shard : Shard) (run : Run F) → Drops s (drop_run s k shard run)
  unfolding drop_run
  drop_run-Drops s k shard run = record { targets = refl; active_before = before }
    where
      over : Run F
      over = record run { status = cancelled }

      before :
          (id : ℕ) (held : Run F)
          → lookup id (insert run.id over s.runs) ≡ some held
          → is_active held.status ≡ true
          → lookup id s.runs ≡ some held
      before id held e a =
          let after = sym (lookup-insert run.id id over s.runs) ∙ e in
          elim (Bool-cases (run.id == id)) [
            | inl same ↦
                let only : some over ≡ some held = rw same at after in
                absurd (true≢false (sym a ∙ sym (ap active_at only)))
            | inr differ ↦ rw differ at after
          ]

  -- One turn of the loop.
  pub data Turn (go : MemoryStore F → MemoryStore F × Option (Assignment F)) (now : ℤ)
      (s : MemoryStore F) (k : ℕ) : MemoryStore F × Option (Assignment F) → Type 0 where
    skipped : Idle k s → Turn go now s k (go s)
    dropped : (t : MemoryStore F) → Takes k s t → Drops s t → Turn go now s k (go t)
    handed :
        (shard : Shard) (run : Run F) (target : Target)
        → lookup k s.shards ≡ some shard
        → is_queued shard.status ≡ true
        → lookup shard.run_id s.runs ≡ some run
        → is_active run.status ≡ true
        → lookup run.config.target_id s.targets ≡ some target
        → Turn go now s k (hand_out now s k shard run target)

  pub claim_shard-Turn :
      (go : MemoryStore F → MemoryStore F × Option (Assignment F)) (now : ℤ) (s : MemoryStore F)
      (k : ℕ)
      → Turn go now s k (claim_shard go now s k)
  unfolding claim_shard drop_shard drop_run
  claim_shard-Turn go now s k = elim (Option-cases (lookup k s.shards)) [
    | inl missing ↦ rw (missing, claim_shard) (skipped (rw missing refl))
    | inr (shard, found) ↦
        rw (found, claim_shard)
          (elim (Bool-cases (is_queued shard.status)) [
            | inl queued ↦ rw queued (elim (Option-cases (lookup shard.run_id s.runs)) [
              | inl missing ↦ rw missing (
                  dropped _ record { status = _; not_queued = refl; written = refl }
                    (drop_shard-Drops s k shard))
              | inr (run, held) ↦ rw held (elim (Bool-cases (is_active run.status)) [
                | inl active ↦
                    rw active (elim (Option-cases (lookup run.config.target_id s.targets)) [
                      | inl gone ↦ rw gone (
                          dropped _ record { status = _; not_queued = refl; written = refl }
                            (drop_run-Drops s k shard run))
                      | inr (target, there) ↦
                          rw there (handed shard run target found queued held active there)
                    ])
                | inr over ↦ rw over (
                    dropped _ record { status = _; not_queued = refl; written = refl }
                      (drop_shard-Drops s k shard))
              ])
            ])
            | inr taken ↦ rw taken (skipped (rw found taken))
          ])
  ]

  handed-Takes :
      (now : ℤ) (s : MemoryStore F) (k : ℕ) (shard : Shard) (run : Run F) (target : Target)
      → Takes k s (hand_out now s k shard run target).0
  unfolding hand_out
  handed-Takes now s k shard run target = record {
    status = record shard { status = running };
    not_queued = refl;
    written = refl;
  }

  Idle-Turn :
      (go : MemoryStore F → MemoryStore F × Option (Assignment F)) (now : ℤ) (s : MemoryStore F)
      (j k : ℕ) (r : MemoryStore F × Option (Assignment F))
      → Turn go now s j r
      → ((t : MemoryStore F) → Idle k t → Idle k (go t).0)
      → Idle k s
      → Idle k r.0
  Idle-Turn go now s j k r (skipped idle) g h = g s h
  Idle-Turn go now s j k r (dropped t taken drops) g h = g t (Idle-Takes j k s t taken h)
  Idle-Turn go now s j k r (handed shard run target a b c d e) g h =
      Idle-Takes j k s (hand_out now s j shard run target).0 (handed-Takes now s j shard run target)
        h

  pub Idle-claim_run :
      (order : List ℕ) (now : ℤ) (k : ℕ) (s : MemoryStore F)
      → Idle k s
      → Idle k (claim_run order now s).0
  unfolding claim_run
  Idle-claim_run [] now k s h = h
  Idle-claim_run (j ∷ rest) now k s h =
      Idle-Turn (claim_run rest now) now s j k _ (claim_shard-Turn (claim_run rest now) now s j)
        (λ t. Idle-claim_run rest now k t) h
