-- ===== src/Deduct/Lock.antt =====
-- internal/deduct/lock.go: the lock in Redis that expires, and the order that is placed under it.
pub mod Exclusion
pub mod Sells
pub mod Expired
use seckill.Order.Statements.{
  select_product, transact, validate_request, take_stock, Env, insert_order_tx, PlaceOrderRequest,
  at_select, at_update,
}
use seckill.Stores.Database.{Database, Order}
use seckill.Stores.Call.{call, Fate}
use seckill.Errors.{
  ◌>>◌, Result, ok, raise_if, err, sentinel, ◌>>=◌, lock_not_acquired, lock_lost, check,
  order_insufficient_stock,
}
use seckill.Stores.Keyspace.{Keyspace}
use seckill.Prelude.{
  ◌∷◌, String, ℕ, Bool, Option, ℤ, some, false, if◌then◌else◌, none, ltb, ◌+◌, List, true, ◌==◌, [],
  ltb_ℤ, suc, zero,
}
use text.Mathlib.Text.{◌==◌ as str_eq}

-- The value of a lock's key: the token, and when Redis drops it, if it ever does.
pub record Lease : Type 0 where
  pub token : String
  pub expires : Option ℕ

-- `LockOptions`
pub record LockOptions : Type 0 where
  pub ttl : ℕ
  pub watchdog : Bool
  pub watchdog_interval : ℕ

-- When a key that is set with a time to live is dropped; go-redis sets no expiry for 0.
abbrev pub expiry : ℕ → ℕ → Option ℕ
expiry now zero = none
expiry now (suc ttl) = some (now + suc ttl)

abbrev pub lasts : ℕ → Option ℕ → Bool
lasts now none = true
lasts now (some end) = ltb now end

-- The value that Redis still has at a time.
abbrev pub live : ℕ → Option Lease → Option Lease
live now none = none
live now (some l) = if lasts now l.expires then some l else none

-- whether a key holds a token
abbrev pub owns : String → Option Lease → Bool
owns token none = false
owns token (some l) = str_eq l.token token

module _ (K : Keyspace ℤ Lease) where
  -- SET NX PX
  unfoldable pub set_nx : ℤ → String → ℕ → ℕ → K.State → K.State × Bool
  set_nx i token ttl now s = elim (live now (K.get s i)) [
    | none ↦ (K.put s i record { token = token; expires = expiry now ttl }, true)
    | some l ↦ (s, false)
  ]

  -- `releaseScript`
  unfoldable pub release_script : ℤ → String → ℕ → K.State → K.State × ℕ
  release_script i token now s =
      if owns token (live now (K.get s i)) then (K.del s i, 1) else (s, 0)

  -- `renewScript`; PEXPIRE of 0 drops the key at once
  unfoldable pub renew_script : ℤ → String → ℕ → ℕ → K.State → K.State × ℕ
  renew_script i token ttl now s =
      if owns token (live now (K.get s i))
      then (K.put s i record { token = token; expires = some (now + ttl) }, 1)
      else (s, 0)

  -- what `Acquire` makes of the answer
  abbrev pub acquired : String → Bool → Result String
  acquired token true = ok token
  acquired token false = err (sentinel lock_not_acquired)

  -- `Acquire`; the lock is its token
  unfoldable pub acquire : Fate → Result String → ℤ → ℕ → ℕ → K.State → K.State × Result String
  unfolding set_nx call
  acquire fate (err e) i ttl now s = (s, err e)
  acquire fate (ok token) i ttl now s =
      let (t, r) = call fate (set_nx i token ttl now) s in (t, r >>= acquired token)

  abbrev pub released : ℕ → Result (Unit {0})
  released n = raise_if (n == 0) lock_lost

  -- `Release`
  unfoldable pub release : Fate → ℤ → String → ℕ → K.State → K.State × Result (Unit {0})
  unfolding release_script call
  release fate i token now s =
      let (t, r) = call fate (release_script i token now) s in (t, r >>= released)

  renewed : K.State × Result ℕ → (K.State → K.State) → K.State
  renewed (s, err e) next = s
  renewed (s, ok n) next = if n == 0 then s else next s

  -- The ticks of `StartWatchdog`, which its interval spaces: what others did to the keys before the tick, its time and its fate.
  unfoldable pub watch : ℤ → String → ℕ → List ((K.State → K.State) × ℕ × Fate) → K.State → K.State
  unfolding renew_script renewed call
  watch i token ttl [] s = s
  watch i token ttl ((others, now, fate) ∷ ticks) s =
      renewed (call fate (renew_script i token ttl now) (others s)) (watch i token ttl ticks)

  module _ (D : Database) where
    -- the statements under the lock: the row is read without a lock of its own
    unfoldable pub locked_body : Env → D.Db → PlaceOrderRequest → D.Db → Result (Order × D.Db)
    unfolding select_product take_stock insert_order_tx
    locked_body env snapshot req d = do
      check (env.down at_select)
      p ← select_product D snapshot req.product_id
      raise_if (ltb_ℤ p.stock req.quantity) order_insufficient_stock
      check (env.down at_update)
      insert_order_tx D env req (take_stock D d req.product_id req.quantity)

    -- What a call meets besides the tables: the token, the calls to Redis, their times, and what
    -- others do to the keys before the release.
    pub record Section : Type 0 where
      pub options : LockOptions
      pub token : Result String
      pub acquiring : Fate
      pub start : ℕ
      pub ticks : List ((K.State → K.State) × ℕ × Fate)
      pub others : K.State → K.State
      pub releasing : Fate
      pub end : ℕ

    unfoldable pub in_section :
        Section
        → Env
        → D.Db
        → PlaceOrderRequest
        → D.Db
        → K.State × Result String
        → K.State × D.Db × Result Order
    unfolding transact locked_body release watch
    in_section w env snapshot req d (s, err e) = (s, d, err e)
    in_section w env snapshot req d (s, ok token) =
        let (d', r) = transact D env (locked_body env snapshot req) d in
        let kept =
          if w.options.watchdog then watch req.product_id token w.options.ttl w.ticks s else s in
        let (u, _) = release w.releasing req.product_id token w.end (w.others kept) in (u, d', r)

    -- `PlaceOrderWithLock`; the release's result is dropped
    unfoldable pub place_order_with_lock :
        Section → Env → D.Db → PlaceOrderRequest → K.State → D.Db → K.State × D.Db × Result Order
    unfolding in_section acquire validate_request
    place_order_with_lock w env snapshot req s d = elim (validate_request req) [
      | err e ↦ (s, d, err e)
      | ok _ ↦
          in_section w env snapshot req d
            (acquire w.acquiring w.token req.product_id w.options.ttl w.start s)
    ]
