-- ===== src/Bucket/Probe.antt =====
-- internal/bucket/model.go, p1_bucket.go: the deduction that tries a bounded number of buckets.
use seckill.Order.Statements.{validate_request, Env, PlaceOrderRequest}
use seckill.Deduct.PreDeduct.{After, compensate, sell}
use seckill.Stores.Database.{Database}
use seckill.Prelude.{true, false}
use seckill.Stores.Call.{Fate}
use seckill.Deduct.Stock.{StockKey, pre_deduct, rollback_pre_deduct, part}
use seckill.Errors.{Error, Result, ok, err, sentinel, ◌>>=◌, is, order_insufficient_stock}
use seckill.Stores.Keyspace.{Keyspace}
use seckill.Prelude.{String, ℤ, Option, ℕ, pos, ◌+ℤ◌, suc, negsuc, ◌%◌, none, some, ◌^◌, zero, ◌+◌}

-- `Config`
pub record Config : Type 0 where
  pub bucket_count : ℤ
  pub max_probes : ℤ

-- `StartBucket`; `sum32` is the FNV-1a hash of a request id
unfoldable pub start_bucket : (String → ℕ) → String → ℤ → ℕ
start_bucket sum32 r (pos zero) = 0
start_bucket sum32 r (pos (suc n)) = sum32 r % (suc n % 2 ^ 32)
start_bucket sum32 r (negsuc n) = 0

-- `DeductResult`
pub record DeductResult : Type 0 where
  pub bucket : ℤ
  pub remaining : ℤ
  pub probes : ℤ

-- `DeductWithProbe` returns a result and perhaps an error, or divides by zero.
pub data Probed : Type 0 where
  returns : DeductResult → Option Error → Probed
  panics : Probed

-- the size of a divisor, which is what Go's remainder of a number that is not negative depends on
abbrev pub magnitude : ℤ → ℕ
magnitude (pos n) = n
magnitude (negsuc n) = suc n

-- the rounds of a loop up to a bound that may be negative
abbrev pub rounds : ℤ → ℕ
rounds (pos n) = n
rounds (negsuc n) = 0

module _ (R : Keyspace StockKey ℤ) where
  unfoldable pub probe_next :
      ℕ → ℕ → R.State × Result ℤ → (R.State → R.State × Probed) → R.State × Probed
  probe_next b i (t, ok left) rest =
      (t, returns record { bucket = pos b; remaining = left; probes = pos (suc i) } none)
  probe_next b i (t, err e) rest = elim (is e order_insufficient_stock) [
    | true ↦ rest t
    | false ↦
        (t, returns record { bucket = negsuc 0; remaining = pos 0; probes = pos (suc i) } (some e))
  ]

  -- The loop of `DeductWithProbe` from its round `i` on, `left` rounds before its end, over `n`
  -- buckets; `fates` are the fates of its calls.
  unfoldable pub probe : (ℕ → Fate) → ℤ → ℕ → ℕ → ℤ → ℕ → ℕ → R.State → R.State × Probed
  unfolding pre_deduct probe_next
  probe fates product start n qty zero i s = (
    s,
    returns record { bucket = negsuc 0; remaining = pos 0; probes = pos i }
        (some (sentinel order_insufficient_stock)),
  )
  probe fates product start n qty (suc left) i s =
      let b = (start + i) % n in
      probe_next b i (pre_deduct R (fates i) (part product b) qty s)
        (probe fates product start n qty left (suc i))

  -- `DeductWithProbe`
  unfoldable pub deduct_with_probe :
      (String → ℕ) → (ℕ → Fate) → Config → ℤ → String → ℤ → R.State → R.State × Probed
  unfolding probe start_bucket ◌+ℤ◌
  deduct_with_probe sum32 fates cfg product r qty s = elim (rounds (pos 1 +ℤ cfg.max_probes)) [
    | zero ↦ (
      s,
      returns record { bucket = negsuc 0; remaining = pos 0; probes = pos 1 +ℤ cfg.max_probes }
          (some (sentinel order_insufficient_stock)),
    )
    | suc left ↦ elim (magnitude cfg.bucket_count) [
      | zero ↦ (s, panics)
      | suc n ↦
          probe fates product (start_bucket sum32 r cfg.bucket_count) (suc n) qty (suc left) 0 s
    ]
  ]

  -- `RollbackToBucket`
  unfoldable pub rollback_to_bucket : Fate → ℤ → ℤ → ℤ → R.State → R.State × Result (Unit {0})
  unfolding rollback_pre_deduct
  rollback_to_bucket fate product (negsuc b) qty s = (s, ok tt)
  rollback_to_bucket fate product (pos b) qty s =
      let (t, r) = rollback_pre_deduct R fate (part product b) qty s in (t, r >>= λ _. ok tt)

  module _ (D : Database) where
    -- What `PlaceOrderWithBucketDeduct` ends in.
    pub data Placed : Type 0 where
      crashes : Placed
      ends : After R D → Placed

    after_probe : Env → Fate → PlaceOrderRequest → D.Db → R.State × Probed → Placed
    unfolding compensate sell
    after_probe env undo req d (s, panics) = crashes
    after_probe env undo req d (s, returns res (some e)) =
        ends record { redis = s; db = d; result = err e }
    after_probe env undo req d (s, returns res none) =
        ends
          (compensate R D undo (part req.product_id (rounds res.bucket)) req s (sell D env req d))

    -- `PlaceOrderWithBucketDeduct`; a bucket that was hit is not negative, and the stock goes back to it
    unfoldable pub place_order_with_bucket_deduct :
        (String → ℕ)
        → (ℕ → Fate)
        → Config
        → Env
        → Fate
        → PlaceOrderRequest
        → R.State
        → D.Db
        → Placed
    unfolding after_probe deduct_with_probe validate_request
    place_order_with_bucket_deduct sum32 fates cfg env undo req s d = elim (validate_request req) [
      | err e ↦ ends record { redis = s; db = d; result = err e }
      | ok _ ↦
          after_probe env undo req d
            (deduct_with_probe sum32 fates cfg req.product_id req.request_id req.quantity s)
    ]
