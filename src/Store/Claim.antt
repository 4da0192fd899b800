-- ===== src/Store/Claim.antt =====
-- internal/store/store.go: ClaimRun. The keys of `s.shards` are visited in the order of the list.
pub mod Shares
pub mod Turns
pub mod Offered
use load_observatory.Prelude.{
  ℕ, ℤ, pos, ltb_ℤ, eqb_ℤ, over_ℤ, rem_ℤ, ◌+ℤ◌, if◌then◌else◌, List, [], ◌∷◌, Option, none, some,
}
use load_observatory.Prelude.Map.{lookup, insert}
use load_observatory.Core.Types.{
  Target, RunConfig, Run, WorkloadId, running, cancelled, Shard, LoadMode, vu, rps, other,
  Assignment,
}
use load_observatory.Store.{MemoryStore, is_active, is_queued, shard_count}

-- `base, extra := load/count, load%count; base, and one more if shard.Index < extra`
unfoldable pub share : ℤ → ℕ → ℤ → ℤ
share load count index =
    let base = over_ℤ load (pos count) in
    if ltb_ℤ index (rem_ℤ load (pos count)) then base +ℤ pos 1 else base

module _ {F : Type 0} where
  share_in_mode : LoadMode → RunConfig F → ℕ → ℤ → RunConfig F
  share_in_mode vu config count index = record config { vus = share config.vus count index }
  share_in_mode rps config count index = record config { rps = share config.rps count index }
  share_in_mode (other mode) config count index = record config {
    rps = share config.rps count index;
  }

  -- The configuration that the agent gets for one shard.
  unfoldable pub shard_config : Run F → Shard → RunConfig F
  unfolding share_in_mode
  shard_config run shard =
      let named = record (run.config) { workload_id = WorkloadId.of_shard run.id shard.id } in
      share_in_mode named.mode named (shard_count named) shard.index

  unfoldable pub started : ℤ → Run F → Run F
  started now run = record run {
    status = running;
    started_unix = if eqb_ℤ run.started_unix (pos 0) then now else run.started_unix;
  }

  unfoldable pub hand_out :
      ℤ → MemoryStore F → ℕ → Shard → Run F → Target → MemoryStore F × Option (Assignment F)
  unfolding shard_config started
  hand_out now s shard_id shard run target =
      let taken = record shard { status = running } in
      let run' = started now run in
      (
        record s { shards = insert shard_id taken s.shards; runs = insert run.id run' s.runs },
        some (record {
          run = record run' { config = shard_config run' taken };
          target = target;
          shard = taken;
        }),
      )

  -- A queued shard whose run is over, or was never there.
  unfoldable pub drop_shard : MemoryStore F → ℕ → Shard → MemoryStore F
  drop_shard s shard_id shard = record s {
    shards = insert shard_id (record shard { status = cancelled }) s.shards;
  }

  -- One whose run has lost its target: the run is cancelled with it.
  unfoldable pub drop_run : MemoryStore F → ℕ → Shard → Run F → MemoryStore F
  drop_run s shard_id shard run = record s {
    runs = insert run.id (record run { status = cancelled }) s.runs;
    shards = insert shard_id (record shard { status = cancelled }) s.shards;
  }

  -- The body of the loop; `go` is the rest of it.
  unfoldable pub claim_shard :
      (MemoryStore F → MemoryStore F × Option (Assignment F))
      → ℤ
      → MemoryStore F
      → ℕ
      → MemoryStore F × Option (Assignment F)
  claim_shard go now s shard_id = elim (lookup shard_id s.shards) [
    | none ↦ go s
    | some shard ↦
        if is_queued shard.status
        then (elim (lookup shard.run_id s.runs) [
          | none ↦ go (drop_shard s shard_id shard)
          | some run ↦
              if is_active run.status
              then (elim (lookup run.config.target_id s.targets) [
                | none ↦ go (drop_run s shard_id shard run)
                | some target ↦ hand_out now s shard_id shard run target
              ])
              else go (drop_shard s shard_id shard)
        ])
        else go s
  ]

  unfoldable pub claim_run : List ℕ → ℤ → MemoryStore F → MemoryStore F × Option (Assignment F)
  claim_run [] now s = (s, none)
  claim_run (shard_id ∷ rest) now s = claim_shard (claim_run rest now) now s shard_id
