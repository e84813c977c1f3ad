-- ===== src/Shard.antt =====
-- internal/shard: the pools of the four schemas, and the probe that counts the accesses to them. The
-- routing itself is not written yet.
pub mod Opened
use seckill.Prelude.{ℕ, List, replicate, Option, none, some, ◌∷◌, [], get_elem?, suc, set, zero}
use seckill.Errors.{Error, Result, err, ok}

abbrev pub shard_count : ℕ
shard_count = 4

-- `AccessProbe`
pub record AccessProbe : Type 0 where
  pub counts : List ℕ

unfoldable pub new_access_probe : AccessProbe
new_access_probe = record { counts = replicate shard_count 0 }

-- `AccessProbe.record` on a probe that may be nil; `none` if the index is out of range
unfoldable pub record_access : ℕ → Option AccessProbe → Option (Option AccessProbe)
record_access shard none = some none
record_access shard (some p) = elim (get_elem? p.counts shard) [
  | none ↦ none
  | some n ↦ some (some (record { counts = set p.counts shard (suc n) }))
]

-- What `OpenPools` leaves: the array, the pools that it closed, and its error with the shard.
pub record Opening (Pool : Type 0) : Type 0 where
  pub pools : List (Option Pool)
  pub closed : List Pool
  pub failed : Option (ℕ × Error)

module _ {Pool : Type 0} where
  -- the pools that `ClosePools` closes
  unfoldable pub close_pools : List (Option Pool) → List Pool
  close_pools [] = []
  close_pools (none ∷ ps) = close_pools ps
  close_pools (some p ∷ ps) = p ∷ close_pools ps

  module _ (open_shard : ℕ → Result Pool) where
    -- the loop, with so many shards left
    unfoldable pub open_from : ℕ → ℕ → List (Option Pool) → Opening Pool
    unfolding close_pools
    open_from zero shard pools = record { pools = pools; closed = []; failed = none }
    open_from (suc left) shard pools = elim (open_shard shard) [
      | err e ↦ record { pools = pools; closed = close_pools pools; failed = some (shard, e) }
      | ok p ↦ open_from left (suc shard) (set pools shard (some p))
    ]

    -- `OpenPools`, by what opening a shard's schema gives
    unfoldable pub open_pools : Opening Pool
    unfolding open_from
    open_pools = open_from shard_count 0 (replicate shard_count none)
