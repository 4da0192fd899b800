-- ===== src/Store/Claim/Shares.antt =====
-- How ClaimRun splits a load over the shards of a run.
use load_observatory.Prelude.{
  rem_ℤ-pos, ℕ, zero, suc, ◌+◌, ◌*◌, ◌/◌, ◌%◌, ◌≤ℤ◌, ◌<◌, ◌≡◌, ◌∙◌, ap, ℤ, pos, ◌+ℤ◌, ltb,
  if◌then◌else◌, arith,
}
use native.Mathlib.Nat.{div-add-mod, mod-lt}
use Prim.Native.Nat.{min}
use load_observatory.Store.Claim.{share}

-- The loads of the first `n` shards together.
abbrev pub shares_sum : ℕ → ℕ → ℕ → ℤ
shares_sum load count zero = pos 0
shares_sum load count (suc n) = shares_sum load count n +ℤ share (pos load) count (pos n)

-- What a shard gets, in natural numbers.
share_lem :
    (load count index : ℕ)
    → share (pos load) count (pos index)
      ≡ pos (load / count + (if ltb index (load % count) then 1 else 0))
unfolding share ◌+ℤ◌
share_lem load count index = rw (rem_ℤ-pos load count) (ground arith)

shares_sum_lem :
    (load count n : ℕ) → shares_sum load count n ≡ pos (n * (load / count) + min n (load % count))
unfolding ◌+ℤ◌
shares_sum_lem load count zero = ground arith
shares_sum_lem load count (suc n) =
    rw (shares_sum_lem load count n, share_lem load count n) (ground arith)

-- A load of any size is split over any positive number of shards without loss: the shares of all the
-- shards add up to the load, and each is the quotient or one more.
pub shares_complete :
    (load count : ℕ)
    → 0 < count
    → (shares_sum load count count ≡ pos load)
      × ((index : ℕ)
          → (pos (load / count) ≤ℤ share (pos load) count (pos index))
            × (share (pos load) count (pos index) ≤ℤ pos (load / count + 1)))
shares_complete load count h =
    let all : count * (load / count) + min count (load % count) ≡ load =
      omega (arith, div-add-mod load count, mod-lt load h) in
    (
      shares_sum_lem load count count ∙ ap pos all,
      λ index. rw (share_lem load count index) (ground arith),
    )
