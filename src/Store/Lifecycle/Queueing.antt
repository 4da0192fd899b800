-- ===== src/Store/Lifecycle/Queueing.antt =====
-- Creating runs and shards, and writing one back, in internal/store/store.go.
use load_observatory.Prelude.{ℕ, zero, suc, ◌≤◌, ◌<◌, ◌≡◌, refl, ◌∙◌, none, some, arith}
use load_observatory.Prelude.Floats.{Floats}
use load_observatory.Prelude.Map.{lookup, insert}
use load_observatory.Prelude.Evolution.{
  Lifted, Evolves-refl, Evolves-insert, IsKeyed-insert, IsKeyed-mono, IsKeyed-free, IsKeyed-found,
}
use load_observatory.Core.Types.{Run, RunConfig, Shard, Target}
use load_observatory.Store.{
  MemoryStore, new_shard, queue_shards_from, queue_shards, shard_count, new_run, create_run,
  create_target,
}
use load_observatory.Store.Lifecycle.{
  RunKeeps, RunKeeps-refl, run_id, ShardKeeps, ShardKeeps-refl, shard_id, IsWell, Advances,
  Advances-trans, Advances-refl,
}

module _ {F : Type 0} where
  -- A run written under a key: it is new, or it keeps what it was.
  pub put_run-Advances :
      (s : MemoryStore F) (key : ℕ) (run : Run F)
      → run.id ≡ key
      → key ≤ s.next_id
      → (0 < key → Lifted RunKeeps (lookup key s.runs) (some run))
      → Advances s (record s { runs = insert key run s.runs })
  unfolding run_id
  put_run-Advances s key run e h keeps w = (
    record {
      runs_keyed = IsKeyed-insert run_id s.next_id key run s.runs e h w.runs_keyed;
      shards_keyed = w.shards_keyed;
    },
    record {
      counts_up = omega arith;
      runs_evolve = Evolves-insert RunKeeps RunKeeps-refl key run s.runs keeps;
      shards_evolve = Evolves-refl ShardKeeps ShardKeeps-refl s.shards;
    },
  )

  pub put_shard-Advances :
      (s : MemoryStore F) (key : ℕ) (shard : Shard)
      → shard.id ≡ key
      → key ≤ s.next_id
      → (0 < key → Lifted ShardKeeps (lookup key s.shards) (some shard))
      → Advances s (record s { shards = insert key shard s.shards })
  put_shard-Advances s key shard e h keeps w = (
    record {
      runs_keyed = w.runs_keyed;
      shards_keyed = IsKeyed-insert shard_id s.next_id key shard s.shards e h w.shards_keyed;
    },
    record {
      counts_up = omega arith;
      runs_evolve = Evolves-refl RunKeeps RunKeeps-refl s.runs;
      shards_evolve = Evolves-insert ShardKeeps ShardKeeps-refl key shard s.shards keeps;
    },
  )

  -- `s.nextID++`
  pub count_up-Advances : (s : MemoryStore F) → Advances s (record s { next_id = suc s.next_id })
  count_up-Advances s w = (
    record {
      runs_keyed = IsKeyed-mono run_id s.next_id (suc s.next_id) s.runs (omega arith) w.runs_keyed;
      shards_keyed =
          IsKeyed-mono shard_id s.next_id (suc s.next_id) s.shards (omega arith) w.shards_keyed;
    },
    record {
      counts_up = omega arith;
      runs_evolve = Evolves-refl RunKeeps RunKeeps-refl s.runs;
      shards_evolve = Evolves-refl ShardKeeps ShardKeeps-refl s.shards;
    },
  )

  -- A fresh id has nothing under it.
  fresh_run :
      (s : MemoryStore F) (run : Run F)
      → IsWell s
      → Lifted RunKeeps (lookup (suc s.next_id) s.runs) (some run)
  fresh_run s run w =
      rw (IsKeyed-free run_id s.next_id (suc s.next_id) s.runs (omega arith) w.runs_keyed) tt

  fresh_shard :
      (s : MemoryStore F) (shard : Shard)
      → IsWell s
      → Lifted ShardKeeps (lookup (suc s.next_id) s.shards) (some shard)
  fresh_shard s shard w =
      rw (IsKeyed-free shard_id s.next_id (suc s.next_id) s.shards (omega arith) w.shards_keyed) tt

  pub new_shard-Advances :
      (s : MemoryStore F) (shard : Shard)
      → shard.id ≡ suc s.next_id
      → Advances s
          (record s { next_id = suc s.next_id; shards = insert (suc s.next_id) shard s.shards })
  new_shard-Advances s shard e w =
      Advances-trans s (record s { next_id = suc s.next_id }) _ (count_up-Advances s)
        (put_shard-Advances (record s { next_id = suc s.next_id }) (suc s.next_id) shard e
          (omega arith) (λ _. fresh_shard s shard w))
        w

  pub queue_shards_from-Advances :
      (left index id : ℕ) (s : MemoryStore F) → Advances s (queue_shards_from left index id s)
  unfolding queue_shards_from
  queue_shards_from-Advances zero index id s = Advances-refl s
  queue_shards_from-Advances (suc left) index id s =
      let shard = new_shard (suc s.next_id) id index in
      let t = record s {
        next_id = suc s.next_id;
        shards = insert (suc s.next_id) shard s.shards;
      } in
      Advances-trans s t _ (new_shard-Advances s shard refl)
        (queue_shards_from-Advances left (suc index) id t)

  pub new_run-Advances :
      (s : MemoryStore F) (run : Run F)
      → run.id ≡ suc s.next_id
      → Advances s (
          queue_shards run
            (record s { next_id = suc s.next_id; runs = insert (suc s.next_id) run s.runs }))
  unfolding queue_shards
  new_run-Advances s run e w =
      let counted = record s { next_id = suc s.next_id } in
      let stored = record counted { runs = insert (suc s.next_id) run s.runs } in
      Advances-trans s counted _ (count_up-Advances s)
        (Advances-trans counted stored _
          (put_run-Advances counted (suc s.next_id) run e (omega arith) (λ _. fresh_run s run w))
          (queue_shards_from-Advances (shard_count run.config) 0 run.id stored))
        w

  -- A run or a shard that was found is written back in another state.
  pub rewrite_run-Advances :
      (s : MemoryStore F) (k : ℕ) (run run' : Run F)
      → lookup k s.runs ≡ some run
      → RunKeeps run run'
      → Advances s (record s { runs = insert run.id run' s.runs })
  unfolding run_id
  rewrite_run-Advances s k run run' e keeps w =
      let (same, bound) = IsKeyed-found run_id s.next_id k s.runs run w.runs_keyed e in
      put_run-Advances s run.id run' keeps.same_id (rw same bound) (λ _. rw same (rw e keeps)) w

  pub rewrite_shard-Advances :
      (s : MemoryStore F) (k : ℕ) (shard shard' : Shard)
      → lookup k s.shards ≡ some shard
      → ShardKeeps shard shard'
      → Advances s (record s { shards = insert k shard' s.shards })
  rewrite_shard-Advances s k shard shard' e keeps w =
      let (same, bound) = IsKeyed-found shard_id s.next_id k s.shards shard w.shards_keyed e in
      put_shard-Advances s k shard' (keeps.same_id ∙ same) bound (λ _. rw e keeps) w

module _ {F : Type 0} where
  pub create_target-Advances :
      (s : MemoryStore F) (target : Target) → Advances s (create_target s target).0
  unfolding create_target
  create_target-Advances s target w =
      let (well, later) = count_up-Advances s w in
      (
        record { runs_keyed = well.runs_keyed; shards_keyed = well.shards_keyed },
        record {
          counts_up = later.counts_up;
          runs_evolve = later.runs_evolve;
          shards_evolve = later.shards_evolve;
        },
      )

module _ {F : Type 0} ⦃fl : Floats F⦄ where
  pub create_run-Advances :
      (s : MemoryStore F) (config : RunConfig F) → Advances s (create_run s config).0
  unfolding create_run new_run
  create_run-Advances s config = new_run-Advances s (new_run (suc s.next_id) none config) refl
