-- ===== src/Bucket/Laws.antt =====
-- internal/bucket: what a deduction over the buckets takes, and that spreading keeps the total.
use seckill.Deduct.Stock.Laws.{PreDeducts}
use seckill.Errors.{ok, err, sentinel, order_insufficient_stock, Error, Result, is}
use seckill.Stores.Call.{Fate, answer_lost}
use seckill.Bucket.Probe.{Probed, returns}
use seckill.Prelude.{true, false, ℤ, ℕ, ◌≤◌, suc, ◌≡◌, ◌+◌, ◌<◌, ◌%◌, pos, none, negsuc, some}
use seckill.Deduct.Stock.{StockKey, part}
use seckill.Stores.Keyspace.{Keyspace}

module _ (R : Keyspace StockKey ℤ) where
  -- How a search from one round on ends: a bucket among those probed lost the quantity and is named with
  -- the number of probes made; or none did, and the result names no bucket; or a call fails, which ends
  -- the search and names no bucket, and its script may or may not have run.
  pub data ProbeEnds (product : ℤ) (start n : ℕ) (qty : ℤ) (i bound : ℕ) (s t : R.State)
      (p : Probed) : Type 0 where
    hits :
        (j : ℕ) (left : ℤ)
        → i ≤ j
        → j < bound
        → p
          ≡ returns
              record { bucket = pos ((start + j) % n); remaining = left; probes = pos (suc j) }
              none
        → PreDeducts R (part product ((start + j) % n)) qty s t (ok left)
        → ProbeEnds product start n qty i bound s t p
    misses :
        p
          ≡ returns
              record { bucket = negsuc 0; remaining = pos 0; probes = pos bound }
              (some (sentinel order_insufficient_stock))
        → t ≡ s
        → ProbeEnds product start n qty i bound s t p
    breaks :
        (j : ℕ) (e : Error)
        → i ≤ j
        → j < bound
        → is e order_insufficient_stock ≡ false
        → p ≡ returns record { bucket = negsuc 0; remaining = pos 0; probes = pos (suc j) } (some e)
        → PreDeducts R (part product ((start + j) % n)) qty s t (err e)
        → ProbeEnds product start n qty i bound s t p

  -- An error of Redis is not the shop's error of insufficient stock.
  abbrev pub Foreign : Fate → Type 0
  Foreign fate = (e : Error) → fate ≡ answer_lost e → is e order_insufficient_stock ≡ false

  -- One round: it takes; or it takes nothing and the search goes on; or it ends the search.
  data Tries (k : StockKey) (qty : ℤ) (s t : R.State) (r : Result ℤ) : Type 0 where
    takes_one : (left : ℤ) → r ≡ ok left → PreDeducts R k qty s t (ok left) → Tries k qty s t r
    passes :
        (e : Error) → r ≡ err e → is e order_insufficient_stock ≡ true → t ≡ s → Tries k qty s t r
    fails :
        (e : Error)
        → r ≡ err e
        → is e order_insufficient_stock ≡ false
        → PreDeducts R k qty s t (err e)
        → Tries k qty s t r
