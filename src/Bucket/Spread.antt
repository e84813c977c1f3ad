-- ===== src/Bucket/Spread.antt =====
-- internal/bucket/p2_spread.go: the stock spread over the buckets, and read back.
pub mod ReadBack
pub mod Total
use seckill.Errors.{driver, Result, check, ◌>>◌, err, ok}
use seckill.Stores.Database.{Database}
use seckill.Stores.Call.{call, Fate, answered, not_made, answer_lost}
use seckill.Order.Statements.{select_product, Env, at_select}
use seckill.Deduct.Stock.{StockKey, part}
use seckill.Stores.Keyspace.{Keyspace, number_at}
use seckill.Prelude.{
  Option, some, none, ◌-ℤ◌, ◌+ℤ◌, ℤ, ℕ, List, pos, if◌then◌else◌, [], ◌∷◌, ◌/◌, ◌%◌, ltb_ℤ, suc,
  negsuc, zero,
}

-- Go's quotient and remainder of a number by one that is positive: both have the number's sign.
unfoldable pub quotient : ℤ → ℕ → ℤ
unfolding ◌-ℤ◌
quotient (pos m) n = pos (m / n)
quotient (negsuc m) n = pos 0 -ℤ pos (suc m / n)

unfoldable pub remainder : ℤ → ℕ → ℤ
unfolding ◌-ℤ◌
remainder (pos m) n = pos (m % n)
remainder (negsuc m) n = pos 0 -ℤ pos (suc m % n)

-- what bucket `b` gets
unfoldable pub share : ℤ → ℤ → ℕ → ℤ
unfolding ◌+ℤ◌
share base rest b = if ltb_ℤ (pos b) rest then base +ℤ pos 1 else base

-- the plan of the last `left` buckets, from bucket `b` on
unfoldable pub planned : ℤ → ℤ → ℕ → ℕ → List ℤ
unfolding share
planned base rest b zero = []
planned base rest b (suc left) = share base rest b ∷ planned base rest (suc b) left

unfoldable pub sum : List ℤ → ℤ
unfolding ◌+ℤ◌
sum [] = pos 0
sum (x ∷ xs) = x +ℤ sum xs

module _ (R : Keyspace StockKey ℤ) where
  -- MSET of the buckets from `b` on
  unfoldable pub write_buckets : ℤ → ℕ → List ℤ → R.State → R.State
  write_buckets product b [] s = s
  write_buckets product b (v ∷ vs) s = write_buckets product (suc b) vs (R.put s (part product b) v)

  -- MGET of `left` buckets from `b` on; a missing one counts 0
  unfoldable pub read_buckets : ℤ → ℕ → ℕ → R.State → List ℤ
  read_buckets product b zero s = []
  read_buckets product b (suc left) s =
      number_at R s (part product b) ∷ read_buckets product (suc b) left s

  -- the plan of `SpreadStock` for the stock of the row, written; no buckets divide by zero, and a
  -- negative number of them is no length of a slice
  unfoldable pub spread : Fate → ℤ → ℤ → ℤ → R.State → R.State × Option (Result (List ℤ))
  unfolding write_buckets planned quotient remainder call
  spread fate product (negsuc n) stock s = (s, none)
  spread fate product (pos zero) stock s = (s, none)
  spread fate product (pos (suc less)) stock s =
      let n = suc less in
      let plan = planned (quotient stock n) (remainder stock n) 0 n in
      let (t, r) = call fate (λ s. (write_buckets product 0 plan s, plan)) s in (t, some r)

  -- `SpreadStock`, for a number of buckets; `none` if it panics
  unfoldable pub spread_stock :
      (D : Database) → Env → Fate → ℤ → ℤ → D.Db → R.State → R.State × Option (Result (List ℤ))
  unfolding select_product spread
  spread_stock D env fate product count d s =
      elim (check (env.down at_select) >> select_product D d product) [
        | err e ↦ (s, some (err e))
        | ok p ↦ spread fate product count p.stock s
      ]

  -- Redis refuses an MGET without keys.
  abbrev refused : Fate → Fate
  refused answered = not_made (driver 0)
  refused (not_made e) = not_made e
  refused (answer_lost e) = answer_lost e

  -- the call of `TotalRemaining`
  total_call : Fate → ℤ → ℕ → R.State → R.State × Option (Result (ℤ × List ℤ))
  unfolding read_buckets sum call
  total_call fate product n s =
      let (t, r) =
        call fate (λ s. (s, (sum (read_buckets product 0 n s), read_buckets product 0 n s))) s in
      (t, some r)

  -- `TotalRemaining`: the sum and the buckets; `none` if it panics
  unfoldable pub total_remaining : Fate → ℤ → ℤ → R.State → R.State × Option (Result (ℤ × List ℤ))
  unfolding total_call
  total_remaining fate product (negsuc n) s = (s, none)
  total_remaining fate product (pos zero) s = total_call (refused fate) product 0 s
  total_remaining fate product (pos (suc less)) s = total_call fate product (suc less) s
