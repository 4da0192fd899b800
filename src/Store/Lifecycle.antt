-- ===== src/Store/Lifecycle.antt =====
-- What no method of MemoryStore (internal/store/store.go) ever does to a run or a shard: lose it, change
-- its identity or its configuration, bring a run back from an end state, or queue a shard again.
pub mod Queueing
pub mod Claiming
pub mod Writing
pub mod Finishing
pub mod Calls
use load_observatory.Prelude.{ℕ, ◌≤◌, ◌<◌, ◌≡◌, refl, ◌∙◌, Bool, true, false, List, arith}
use load_observatory.Prelude.Evolution.{Evolves, Evolves-refl, Evolves-trans, IsKeyed}
use load_observatory.Core.Types.{Run, Shard, Status, unset, queued, running, completed, cancelled}
use load_observatory.Store.{MemoryStore}

-- From `queued` on to anything, from `running` to an end, and from an end nowhere. Only the zero value
-- of a run that was never stored has no status.
abbrev pub may_become : Status → Status → Bool
may_become queued unset = false
may_become queued _ = true
may_become running queued = false
may_become running unset = false
may_become running _ = true
may_become completed completed = true
may_become cancelled cancelled = true
may_become unset _ = true
may_become _ _ = false

-- A shard may come to any status but `queued` from another.
abbrev pub may_shard_become : Status → Status → Bool
may_shard_become queued _ = true
may_shard_become _ queued = false
may_shard_become _ _ = true

module _ {F : Type 0} where
  pub record RunKeeps (old new : Run F) : Type 0 where
    pub moves : may_become old.status new.status ≡ true
    pub same_id : new.id ≡ old.id
    pub same_config : new.config ≡ old.config

  pub run_id : Run F → ℕ
  run_id run = run.id

  pub RunKeeps-refl : (run : Run F) → RunKeeps run run
  RunKeeps-refl run = ground arith

  pub RunKeeps-trans : (a b c : Run F) → RunKeeps a b → RunKeeps b c → RunKeeps a c
  RunKeeps-trans a b c p q = record {
    moves = between a.status b.status c.status p.moves q.moves;
    same_id = q.same_id ∙ p.same_id;
    same_config = q.same_config ∙ p.same_config;
  }
    where
      between :
          (x y z : Status) → may_become x y ≡ true → may_become y z ≡ true → may_become x z ≡ true
      between x y z h k = ground arith

pub record ShardKeeps (old new : Shard) : Type 0 where
  pub moves : may_shard_become old.status new.status ≡ true
  pub same_id : new.id ≡ old.id
  pub same_run : new.run_id ≡ old.run_id
  pub same_index : new.index ≡ old.index

abbrev pub shard_id : Shard → ℕ
shard_id shard = shard.id

pub ShardKeeps-refl : (shard : Shard) → ShardKeeps shard shard
ShardKeeps-refl shard = ground arith

pub ShardKeeps-trans : (a b c : Shard) → ShardKeeps a b → ShardKeeps b c → ShardKeeps a c
ShardKeeps-trans a b c p q = record {
  moves = between a.status b.status c.status p.moves q.moves;
  same_id = q.same_id ∙ p.same_id;
  same_run = q.same_run ∙ p.same_run;
  same_index = q.same_index ∙ p.same_index;
}
  where
    between :
        (x y z : Status)
        → may_shard_become x y ≡ true
        → may_shard_become y z ≡ true
        → may_shard_become x z ≡ true
    between x y z h k = ground arith

module _ {F : Type 0} where
  -- Every run and shard is stored under its own id, and no id lies above the counter.
  pub record IsWell (s : MemoryStore F) : Type 0 where
    pub runs_keyed : IsKeyed run_id s.next_id s.runs
    pub shards_keyed : IsKeyed shard_id s.next_id s.shards

  -- From one state to a later one.
  pub record Later (old new : MemoryStore F) : Type 0 where
    pub counts_up : old.next_id ≤ new.next_id
    pub runs_evolve : Evolves RunKeeps old.runs new.runs
    pub shards_evolve : Evolves ShardKeeps old.shards new.shards

  pub Later-refl : (s : MemoryStore F) → Later s s
  Later-refl s = record {
    counts_up = omega arith;
    runs_evolve = Evolves-refl RunKeeps RunKeeps-refl s.runs;
    shards_evolve = Evolves-refl ShardKeeps ShardKeeps-refl s.shards;
  }

  pub Later-trans : (a b c : MemoryStore F) → Later a b → Later b c → Later a c
  Later-trans a b c p q = record {
    counts_up = omega (arith, p.counts_up, q.counts_up);
    runs_evolve =
        Evolves-trans RunKeeps RunKeeps-trans a.runs b.runs c.runs p.runs_evolve q.runs_evolve;
    shards_evolve =
        Evolves-trans ShardKeeps ShardKeeps-trans a.shards b.shards c.shards p.shards_evolve
          q.shards_evolve;
  }

  -- A call that keeps the invariant and only moves forward.
  abbrev pub Advances : MemoryStore F → MemoryStore F → Type 0
  Advances old new = IsWell old → IsWell new × Later old new

  pub Advances-trans : (a b c : MemoryStore F) → Advances a b → Advances b c → Advances a c
  Advances-trans a b c p q w =
      let (wb, ab) = p w in let (wc, bc) = q wb in (wc, Later-trans a b c ab bc)

  pub Advances-refl : (s : MemoryStore F) → Advances s s
  Advances-refl s w = (w, Later-refl s)
