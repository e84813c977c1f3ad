-- ===== src/Reconcile/Ledger.antt =====
-- internal/reconcile: the entries, the two ways to enqueue, the identity, and the reconciliation.
use seckill.Stores.Database.{Order}
use seckill.Stores.Call.{call, Fate}
use seckill.Errors.{Result, Error, err, sentinel, ok, simulated_crash}
use seckill.Deduct.Stock.{StockKey, rollback_pre_deduct, pre_deduct, whole}
use seckill.Stores.Keyspace.{Keyspace, incr_by, number_at}
use seckill.Order.Statements.{PlaceOrderRequest, sold, find_order}
use seckill.Prelude.{
  String, ℕ, ◌-ℤ◌, ℤ, Bool, Option, eqb_ℤ, true, false, pos, List, ◌+ℤ◌, none, some, if◌then◌else◌,
  suc, ◌∷◌, leb_ℤ, ltb_ℤ, not, [],
}

pub data LedgerState : Type 0 where
  pending reconciled : LedgerState

-- `Entry`
pub record Entry : Type 0 where
  pub request_id : String
  pub product_id : ℤ
  pub quantity : ℤ
  pub created_at : ℤ
  pub state : LedgerState

-- `Outcome`
pub data Outcome : Type 0 where
  refunded young settled already : Outcome

-- `Report`
pub record Report : Type 0 where
  pub scanned : ℕ
  pub refunded : ℕ
  pub refunded_qty : ℤ
  pub young : ℕ
  pub settled : ℕ
  pub already_reconciled : ℕ

-- `CrashSwitch.Fire`; `none` is the nil switch
unfoldable pub fire : Option ℤ → Option ℤ × Bool
unfolding ◌-ℤ◌
fire none = (none, false)
fire (some left) = if leb_ℤ left (pos 0) then (some left, false) else (some (left -ℤ pos 1), true)

-- `Identity`, with `Holds`
pub record Identity : Type 0 where
  pub initial_stock : ℤ
  pub redis_remaining : ℤ
  pub redis_deducted : ℤ
  pub db_ordered : ℤ
  pub leaked : ℤ

abbrev pub holds : Identity → Bool
holds i = eqb_ℤ i.leaked (pos 0)

abbrev pub is_pending : LedgerState → Bool
is_pending pending = true
is_pending reconciled = false

-- the pending entry of a request
abbrev pub entry_of : PlaceOrderRequest → ℤ → Entry
entry_of req now = record {
  request_id = req.request_id;
  product_id = req.product_id;
  quantity = req.quantity;
  created_at = now;
  state = pending;
}

module _ (R : Keyspace StockKey ℤ) (L : Keyspace String Entry) where
  pub record State : Type 0 where
    pub stock : R.State
    pub entries : L.State

  -- SETNX of `RecordPreDeduct`
  unfoldable pub record_script : PlaceOrderRequest → ℤ → State → State × (Unit {0})
  record_script req now s = elim (L.get s.entries req.request_id) [
    | none ↦ (
      record { stock = s.stock; entries = L.put s.entries req.request_id (entry_of req now) },
      tt,
    )
    | some e ↦ (s, tt)
  ]

  -- `settleScript`, with the entry found at its key
  unfoldable pub settle_found : Entry → ℤ → State → Option Entry → State × Bool
  unfolding incr_by
  settle_found e qty s none = (s, false)
  settle_found e qty s (some f) =
      if is_pending f.state
      then (
        record {
          stock =
              if ltb_ℤ (pos 0) qty then (incr_by R s.stock (whole e.product_id) qty).0 else s.stock;
          entries = L.put s.entries e.request_id (record e { state = reconciled });
        },
        true,
      )
      else (s, false)

  unfoldable pub settle_script : Entry → ℤ → State → State × Bool
  unfolding settle_found
  settle_script e qty s = settle_found e qty s (L.get s.entries e.request_id)

  -- `settleEntry`
  unfoldable pub settle_entry : Fate → Entry → ℤ → State → State × Result Bool
  unfolding settle_script call
  settle_entry fate e qty s = call fate (settle_script e qty) s

  -- a call that touches the stock only
  abbrev pub on_stock {ℓ} : {A : Type ℓ} → (R.State → R.State × A) → State → State × A
  on_stock f s = let (t, a) = f s.stock in (record { stock = t; entries = s.entries }, a)

  -- What a call of the enqueueing functions meets, in order.
  pub record World : Type 0 where
    pub deducting : Fate
    pub recording : Fate
    pub produced : Option Error
    pub rolling_back : Fate
    pub settling : Fate

  -- the production of the message, and the rollback if it fails
  unfoldable pub after_crash :
      World
      → PlaceOrderRequest
      → Option ℤ × Bool
      → State
      → (State → Error → State × Option Error)
      → State × Option ℤ × Option Error
  unfolding rollback_pre_deduct
  after_crash w req (crash, true) s undo = (s, crash, some (sentinel simulated_crash))
  after_crash w req (crash, false) s undo = elim w.produced [
    | none ↦ (s, crash, none)
    | some e ↦
        let (t, _) =
          on_stock (rollback_pre_deduct R w.rolling_back (whole req.product_id) req.quantity) s in
        let (u, f) = undo t e in (u, crash, f)
  ]

  -- `EnqueueWithCrash`
  crash_deducted :
      World → PlaceOrderRequest → Option ℤ → State × Result ℤ → State × Option ℤ × Option Error
  unfolding after_crash fire
  crash_deducted w req crash (s, err e) = (s, crash, some e)
  crash_deducted w req crash (s, ok left) = after_crash w req (fire crash) s (λ t e. (t, some e))

  unfoldable pub enqueue_with_crash :
      World → PlaceOrderRequest → Option ℤ → State → State × Option ℤ × Option Error
  unfolding crash_deducted pre_deduct
  enqueue_with_crash w req crash s =
      crash_deducted w req crash
        (on_stock (pre_deduct R w.deducting (whole req.product_id) req.quantity) s)

  -- `EnqueueWithLedger`
  unfoldable pub settle_failure : State × Result Bool → Error → State × Option Error
  settle_failure (s, err f) e = (s, some f)
  settle_failure (s, ok _) e = (s, some e)

  unfoldable pub ledger_recorded :
      World
      → PlaceOrderRequest
      → ℤ
      → Option ℤ
      → State × Result (Unit {0})
      → State × Option ℤ × Option Error
  unfolding after_crash fire settle_failure settle_entry
  ledger_recorded w req now crash (s, err e) = (s, crash, some e)
  ledger_recorded w req now crash (s, ok _) =
      after_crash w req (fire crash) s
        (λ t e. settle_failure (settle_entry w.settling (entry_of req now) (pos 0) t) e)

  unfoldable pub ledger_deducted :
      World → PlaceOrderRequest → ℤ → Option ℤ → State × Result ℤ → State × Option ℤ × Option Error
  unfolding ledger_recorded record_script call
  ledger_deducted w req now crash (s, err e) = (s, crash, some e)
  ledger_deducted w req now crash (s, ok left) =
      ledger_recorded w req now crash (call w.recording (record_script req now) s)

  unfoldable pub enqueue_with_ledger :
      World → PlaceOrderRequest → ℤ → Option ℤ → State → State × Option ℤ × Option Error
  unfolding ledger_deducted pre_deduct
  enqueue_with_ledger w req now crash s =
      ledger_deducted w req now crash
        (on_stock (pre_deduct R w.deducting (whole req.product_id) req.quantity) s)

  -- SELECT COUNT(*) FROM orders WHERE request_id = ?, tested to be positive
  abbrev pub is_ordered : List Order → String → Bool
  is_ordered os r = elim (find_order os r) [ none ↦ false | some o ↦ true ]

  unfoldable pub settled_as : Outcome → State × Result Bool → State × Result Outcome
  settled_as o (s, err e) = (s, err e)
  settled_as o (s, ok true) = (s, ok o)
  settled_as o (s, ok false) = (s, ok already)

  -- what `ReconcileEntry` does once the tables have answered
  unfoldable pub judge : Result Bool → Fate → Entry → State → State × Result Outcome
  unfolding settle_entry settled_as
  judge (err x) fate e s = (s, err x)
  judge (ok true) fate e s = settled_as settled (settle_entry fate e (pos 0) s)
  judge (ok false) fate e s = settled_as refunded (settle_entry fate e e.quantity s)

  -- `ReconcileEntry`; `asked` is the answer of the tables, or an error
  unfoldable pub reconcile_entry :
      Result Bool → Fate → Entry → ℤ → ℤ → State → State × Result Outcome
  unfolding judge ◌-ℤ◌
  reconcile_entry asked fate e window now s =
      if not (is_pending e.state)
      then (s, ok already)
      else if ltb_ℤ (now -ℤ e.created_at) window
      then (s, ok young)
      else judge asked fate e s

  -- one line of the report
  unfoldable pub count : Entry → Outcome → Report → Report
  unfolding ◌+ℤ◌
  count e refunded r = record r {
    scanned = suc r.scanned;
    refunded = suc r.refunded;
    refunded_qty = r.refunded_qty +ℤ e.quantity;
  }
  count e young r = record r { scanned = suc r.scanned; young = suc r.young }
  count e settled r = record r { scanned = suc r.scanned; settled = suc r.settled }
  count e already r = record r {
    scanned = suc r.scanned;
    already_reconciled = suc r.already_reconciled;
  }

  -- What the loop of `ReconcileOnce` meets at an entry.
  pub record Visit : Type 0 where
    pub entry : Entry
    pub cancelled : Option Error
    pub asked : Result Bool
    pub fate : Fate

  visited :
      Visit
      → Report
      → State × Result Outcome
      → (Report → State → State × Report × Option Error)
      → State × Report × Option Error
  unfolding count
  visited v r (s, err e) next = (s, r, some e)
  visited v r (s, ok o) next = next (count v.entry o r) s

  -- the loop of `ReconcileOnce` over the entries that `ScanLedger` gave it
  unfoldable pub reconcile_once :
      ℤ → ℤ → List Visit → Report → State → State × Report × Option Error
  unfolding reconcile_entry visited
  reconcile_once window now [] r s = (s, r, none)
  reconcile_once window now (v ∷ vs) r s = elim v.cancelled [
    | some e ↦ (s, r, some e)
    | none ↦
        visited v r (reconcile_entry v.asked v.fate v.entry window now s)
          (reconcile_once window now vs)
  ]

-- `CheckIdentity`
unfoldable pub check_identity : (R : Keyspace StockKey ℤ) → R.State → List Order → ℤ → ℤ → Identity
unfolding sold ◌-ℤ◌
check_identity R s os product initial = record {
  initial_stock = initial;
  redis_remaining = number_at R s (whole product);
  redis_deducted = initial -ℤ number_at R s (whole product);
  db_ordered = sold os product;
  leaked = initial -ℤ number_at R s (whole product) -ℤ sold os product;
}
