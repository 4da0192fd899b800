-- ===== src/Store/Claim/Offered.antt =====
-- ClaimRun (internal/store/store.go): what it hands out, and what it leaves when it hands out nothing.
use load_observatory.Prelude.{
  ℕ, ℤ, ◌==◌, ==_iff, ◌≡◌, refl, sym, ◌∙◌, ap, true, List, [], ◌∷◌, Option, none, some, All,
}
use load_observatory.Prelude.Map.{lookup, lookup-insert}
use load_observatory.Core.Types.{Run, Shard, running, Target, Assignment}
use load_observatory.Store.{MemoryStore, is_active, is_queued}
use load_observatory.Store.Claim.{hand_out, claim_run, shard_config, started}
use load_observatory.Store.Claim.Turns.{
  Idle, Drops, Turn, Idle-taken, queued-Takes, claim_shard-Turn, Idle-claim_run, skipped, dropped,
  handed,
}

module _ {F : Type 0} where
  -- What stands in the store for a run that was handed out: it runs, under its own id and with its own
  -- configuration, and the agent got it with the configuration of the shard.
  pub record IsStarted (run : Run F) (t : MemoryStore F) (a : Assignment F) : Type 0 where
    pub stored : Run F
    pub there : lookup run.id t.runs ≡ some stored
    pub runs : stored.status ≡ running
    pub same_id : stored.id ≡ run.id
    pub same_config : stored.config ≡ run.config
    pub given : a.run ≡ record stored { config = shard_config stored a.shard }

  -- With nothing handed out, none of the shards visited waits any more. Otherwise the shard handed out was
  -- waiting before and is running after, its run was active before and is running after, and the target
  -- is that of the run.
  abbrev pub Offered : List ℕ → MemoryStore F → MemoryStore F × Option (Assignment F) → Type 0
  Offered order s (t, none) = All (λ k. Idle k t) order
  Offered order s (t, some a) =
      (k : ℕ) × (shard : Shard) × (run : Run F) × (lookup k s.shards ≡ some shard)
      × (is_queued shard.status ≡ true)
      × (lookup shard.run_id s.runs ≡ some run)
      × (is_active run.status ≡ true)
      × (lookup run.config.target_id s.targets ≡ some a.target)
      × (a.shard ≡ record shard { status = running })
      × (lookup k t.shards ≡ some a.shard)
      × IsStarted run t a

  -- What waits or is active in the second state did so in the first, and the targets are the same.
  pub record Looks (s t : MemoryStore F) : Type 0 where
    pub queued_before :
        (j : ℕ) (shard : Shard)
        → lookup j t.shards ≡ some shard
        → is_queued shard.status ≡ true
        → lookup j s.shards ≡ some shard
    pub drops : Drops s t

  Offered-longer :
      (k : ℕ) (rest : List ℕ) (s t : MemoryStore F) (r : MemoryStore F × Option (Assignment F))
      → Looks s t
      → Offered rest t r
      → Idle k r.0
      → Offered (k ∷ rest) s r
  Offered-longer k rest s t (u, none) back o idle = (idle, o)
  Offered-longer k rest s t (u, some a) back
        (j, shard, run, found, q, owner, active, target, taken, held, starts) idle =
      (
        j,
        shard,
        run,
        back.queued_before j shard found q,
        q,
        back.drops.active_before shard.run_id run owner active,
        active,
        ap (λ m. lookup run.config.target_id m) (sym back.drops.targets) ∙ target,
        taken,
        held,
        starts,
      )

  hand_out-Offered :
      (order : List ℕ) (now : ℤ) (s : MemoryStore F) (k : ℕ) (shard : Shard) (run : Run F)
      (target : Target)
      → lookup k s.shards ≡ some shard
      → is_queued shard.status ≡ true
      → lookup shard.run_id s.runs ≡ some run
      → is_active run.status ≡ true
      → lookup run.config.target_id s.targets ≡ some target
      → Offered order s (hand_out now s k shard run target)
  unfolding hand_out started
  hand_out-Offered order now s k shard run target found q held active there =
      let same : (k == k) ≡ true = (==_iff k k).1 refl in
      let own : (run.id == run.id) ≡ true = (==_iff run.id run.id).1 refl in
      (
        k,
        shard,
        run,
        found,
        q,
        held,
        active,
        there,
        refl,
        rw (lookup-insert k k (record shard { status = running }) s.shards) (rw same refl),
        record {
          stored = started now run;
          there = rw (lookup-insert run.id run.id (started now run) s.runs) (rw own refl);
          runs = refl;
          same_id = refl;
          same_config = refl;
          given = refl;
        },
      )

  Offered-Turn :
      (k : ℕ) (rest : List ℕ) (now : ℤ) (s : MemoryStore F)
      (r : MemoryStore F × Option (Assignment F))
      → Turn (claim_run rest now) now s k r
      → ((t : MemoryStore F) → Offered rest t (claim_run rest now t))
      → Offered (k ∷ rest) s r
  Offered-Turn k rest now s r (skipped idle) ih =
      Offered-longer k rest s s (claim_run rest now s)
        (record {
          queued_before = λ j shard e q. e;
          drops = record { targets = refl; active_before = λ id run e a. e };
        })
        (ih s) (Idle-claim_run rest now k s idle)
  Offered-Turn k rest now s r (dropped t taken drops) ih =
      Offered-longer k rest s t (claim_run rest now t)
        (record {
          queued_before = λ j shard e q. queued-Takes k j s t shard taken e q;
          drops = drops;
        })
        (ih t) (Idle-claim_run rest now k t (Idle-taken k s t taken))
  Offered-Turn k rest now s r (handed shard run target found q held active there) ih =
      hand_out-Offered (k ∷ rest) now s k shard run target found q held active there

  -- A call of ClaimRun that visits the shards in any order, in any state. If it hands out nothing, none of
  -- the shards visited waits any more, so that no work is left behind. If it hands out a shard, that shard
  -- was waiting before the call and is stored as running after it, so that it is not handed out twice;
  -- the run stored under its run id was active before, and stands under its own id as running after, with
  -- its configuration unchanged; and the agent gets that run, with the configuration of the shard, and
  -- the target of the run.
  pub claim_run-Offered :
      (order : List ℕ) (now : ℤ) (s : MemoryStore F) → Offered order s (claim_run order now s)
  unfolding claim_run
  claim_run-Offered [] now s = tt
  claim_run-Offered (k ∷ rest) now s =
      Offered-Turn k rest now s _ (claim_shard-Turn (claim_run rest now) now s k)
        (λ t. claim_run-Offered rest now t)
