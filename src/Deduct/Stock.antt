-- ===== src/Deduct/Stock.antt =====
-- internal/deduct/model.go, prededuct.go: the stock in Redis and its two scripts. The buckets of
-- internal/bucket/model.go have the same scripts at keys of their own.
pub mod Laws
use seckill.Prelude.{ℕ, Bool, Option, none, some, ℤ, pos, negsuc, ltb_ℤ, eqb_ℤ, if◌then◌else◌}
use seckill.Errors.{Error, Result, ok, err, ◌>>=◌, ◌>>◌, sentinel, order_insufficient_stock, check}
use seckill.Stores.Call.{Fate, call}
use seckill.Stores.Keyspace.{Keyspace, number, decr_by, incr_by}
use seckill.Stores.Database.{Database, Product}
use seckill.Order.Statements.{Env, at_select, select_product}

-- `whole p` is the key seckill:stock:p, `part p b` the key seckill:stock:p:b<b>
pub data StockKey : Type 0 where
  whole : ℤ → StockKey
  part : ℤ → ℕ → StockKey

module _ (R : Keyspace StockKey ℤ) where
  -- `preDeductScript`: what is left, or -1 if the key is missing or holds too little
  unfoldable pub pre_deduct_script : StockKey → ℤ → R.State → R.State × ℤ
  unfolding decr_by
  pre_deduct_script k qty s = elim (R.get s k) [
    | none ↦ (s, negsuc 0)
    | some stock ↦ if ltb_ℤ stock qty then (s, negsuc 0) else decr_by R s k qty
  ]

  -- `rollbackScript`
  unfoldable pub rollback_script : StockKey → ℤ → R.State → R.State × ℤ
  unfolding incr_by
  rollback_script k qty s = incr_by R s k qty

  -- the answer -1 as an error
  abbrev pub read_answer : ℤ → Result ℤ
  read_answer n = if eqb_ℤ n (negsuc 0) then err (sentinel order_insufficient_stock) else ok n

  -- `PreDeduct`, at a key
  unfoldable pub pre_deduct : Fate → StockKey → ℤ → R.State → R.State × Result ℤ
  unfolding pre_deduct_script call
  pre_deduct fate k qty s =
      let (t, r) = call fate (pre_deduct_script k qty) s in (t, r >>= read_answer)

  -- `RollbackPreDeduct`, at a key
  unfoldable pub rollback_pre_deduct : Fate → StockKey → ℤ → R.State → R.State × Result ℤ
  unfolding rollback_script call
  rollback_pre_deduct fate k qty s = call fate (rollback_script k qty) s

  -- `WarmStock`: the stock of the table overwrites the key
  unfoldable pub warm_stock :
      (D : Database) → Env → Fate → ℤ → D.Db → R.State → R.State × Result (Unit {0})
  unfolding select_product call
  warm_stock D env fate i d s = elim (check (env.down at_select) >> select_product D d i) [
    | err e ↦ (s, err e)
    | ok p ↦ call fate (λ s. (R.put s (whole i) p.stock, tt)) s
  ]
