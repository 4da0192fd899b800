-- ===== src/Store/Lifecycle/Claiming.antt =====
-- ClaimRun (internal/store/store.go) along the whole loop over the shards.
use load_observatory.Prelude.{
  ℕ, ℤ, ◌≡◌, refl, true, List, [], ◌∷◌, Option, some, arith, inl, inr, Bool-cases, Option-cases,
}
use load_observatory.Prelude.Map.{lookup, insert}
use load_observatory.Core.Types.{Run, Shard, Status, running, cancelled, Target, Assignment}
use load_observatory.Store.{MemoryStore, is_active, is_queued}
use load_observatory.Store.Claim.{started, hand_out, drop_shard, drop_run, claim_shard, claim_run}
use load_observatory.Store.Lifecycle.{RunKeeps, ShardKeeps, Advances, Advances-trans, Advances-refl}
use load_observatory.Store.Lifecycle.Queueing.{rewrite_run-Advances, rewrite_shard-Advances}

shard-ShardKeeps :
    (shard : Shard) (next : Status)
    → is_queued shard.status ≡ true
    → ShardKeeps shard (record shard { status = next })
shard-ShardKeeps shard next h = record {
  moves = ground arith;
  same_id = refl;
  same_run = refl;
  same_index = refl;
}

module _ {F : Type 0} where
  started-RunKeeps :
      (now : ℤ) (run : Run F) → is_active run.status ≡ true → RunKeeps run (started now run)
  unfolding started
  started-RunKeeps now run h = record { moves = ground arith; same_id = refl; same_config = refl }

  cancelled-RunKeeps :
      (run : Run F) → is_active run.status ≡ true → RunKeeps run (record run { status = cancelled })
  cancelled-RunKeeps run h = record { moves = ground arith; same_id = refl; same_config = refl }

  drop_shard-Advances :
      (s : MemoryStore F) (k : ℕ) (shard : Shard)
      → lookup k s.shards ≡ some shard
      → is_queued shard.status ≡ true
      → Advances s (drop_shard s k shard)
  unfolding drop_shard
  drop_shard-Advances s k shard e q =
      rewrite_shard-Advances s k shard _ e (shard-ShardKeeps shard cancelled q)

  drop_run-Advances :
      (s : MemoryStore F) (k : ℕ) (shard : Shard) (run : Run F)
      → lookup k s.shards ≡ some shard
      → is_queued shard.status ≡ true
      → lookup shard.run_id s.runs ≡ some run
      → is_active run.status ≡ true
      → Advances s (drop_run s k shard run)
  unfolding drop_run
  drop_run-Advances s k shard run e q f a =
      let t = record s { runs = insert run.id (record run { status = cancelled }) s.runs } in
      Advances-trans s t _ (rewrite_run-Advances s shard.run_id run _ f (cancelled-RunKeeps run a))
        (rewrite_shard-Advances t k shard _ e (shard-ShardKeeps shard cancelled q))

  hand_out-Advances :
      (now : ℤ) (s : MemoryStore F) (k : ℕ) (shard : Shard) (run : Run F) (target : Target)
      → lookup k s.shards ≡ some shard
      → is_queued shard.status ≡ true
      → lookup shard.run_id s.runs ≡ some run
      → is_active run.status ≡ true
      → Advances s (hand_out now s k shard run target).0
  unfolding hand_out
  hand_out-Advances now s k shard run target e q f a =
      let t = record s { shards = insert k (record shard { status = running }) s.shards } in
      Advances-trans s t _ (rewrite_shard-Advances s k shard _ e (shard-ShardKeeps shard running q))
        (rewrite_run-Advances t shard.run_id run _ f (started-RunKeeps now run a))

  claim_shard-Advances :
      (go : MemoryStore F → MemoryStore F × Option (Assignment F)) (now : ℤ) (s : MemoryStore F)
      (k : ℕ)
      → ((t : MemoryStore F) → Advances t (go t).0)
      → Advances s (claim_shard go now s k).0
  unfolding claim_shard
  claim_shard-Advances go now s k ih = elim (Option-cases (lookup k s.shards)) [
    | inl missing ↦ rw (missing, claim_shard) (ih s)
    | inr (shard, found) ↦
        rw (found, claim_shard)
          (elim (Bool-cases (is_queued shard.status)) [
            | inl queued ↦ rw queued (elim (Option-cases (lookup shard.run_id s.runs)) [
              | inl missing ↦ rw missing (
                  Advances-trans s (drop_shard s k shard) _
                    (drop_shard-Advances s k shard found queued) (ih (drop_shard s k shard)))
              | inr (run, held) ↦ rw held (elim (Bool-cases (is_active run.status)) [
                | inl active ↦
                    rw active (elim (Option-cases (lookup run.config.target_id s.targets)) [
                      | inl gone ↦ rw gone (
                          Advances-trans s (drop_run s k shard run) _
                            (drop_run-Advances s k shard run found queued held active)
                            (ih (drop_run s k shard run)))
                      | inr (target, there) ↦
                          rw there
                            (hand_out-Advances now s k shard run target found queued held active)
                    ])
                | inr over ↦ rw over (
                    Advances-trans s (drop_shard s k shard) _
                      (drop_shard-Advances s k shard found queued) (ih (drop_shard s k shard)))
              ])
            ])
            | inr taken ↦ rw taken (ih s)
          ])
  ]

  pub claim_run-Advances :
      (order : List ℕ) (now : ℤ) (s : MemoryStore F) → Advances s (claim_run order now s).0
  unfolding claim_run
  claim_run-Advances [] now s = Advances-refl s
  claim_run-Advances (k ∷ rest) now s =
      claim_shard-Advances (claim_run rest now) now s k (λ t. claim_run-Advances rest now t)
