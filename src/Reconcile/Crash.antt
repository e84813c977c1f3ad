-- ===== src/Reconcile/Crash.antt =====
-- internal/reconcile: what a crash between the deduction and the message leaks, and the reconciliation
-- that follows it, one after the other.
use seckill.Reconcile.Settle.{open_at}
use seckill.Order.Statements.{PlaceOrderRequest}
use seckill.Stores.Call.{answered}
use seckill.Stores.Keyspace.{Keyspace, number_at, number}
use seckill.Deduct.Stock.{StockKey, whole, pre_deduct_script}
use seckill.Errors.{sentinel, simulated_crash, ok}
use seckill.Prelude.{
  String, ℕ, ℤ, suc, pos, none, some, ◌≡◌, ◌≤ℤ◌, ◌-ℤ◌, ◌+ℤ◌, ltb_ℤ, false, arith, refl, int_laws,
  ap, ◌∙◌, true, eqb_ℤ, negsuc, leb_ℤ,
}
use seckill.Reconcile.Ledger.{
  Entry, State, World, entry_of, enqueue_with_ledger, reconcile_entry, refunded, record_script,
  reconciled,
}

pub not_short : (a b : ℤ) → b ≤ℤ a → ltb_ℤ a b ≡ false
not_short a b h = ground arith

pub not_minus_one : (n : ℤ) → pos 0 ≤ℤ n → eqb_ℤ n (negsuc 0) ≡ false
not_minus_one n h = ground arith

pub armed : (k : ℕ) → leb_ℤ (pos (suc k)) (pos 0) ≡ false
armed k = ground arith

taken_and_back : (a b : ℤ) → a -ℤ b +ℤ b ≡ a
taken_and_back a b = omega int_laws

more_than_none : (q : ℤ) → pos 1 ≤ℤ q → ltb_ℤ (pos 0) q ≡ true
more_than_none q h = ground arith

module _ (R : Keyspace StockKey ℤ) (L : Keyspace String Entry) where
  -- the script, where the key holds enough
  pub script_lem :
      (k : StockKey) (q stock : ℤ) (t : R.State)
      → R.get t k ≡ some stock
      → q ≤ℤ stock
      → pre_deduct_script R k q t ≡ (R.put t k (stock -ℤ q), stock -ℤ q)
  unfolding pre_deduct_script
  script_lem k q stock t e h = rw (e, not_short stock q h, pre_deduct_script, e) refl

  module _ (w : World R L) (req : PlaceOrderRequest) (now : ℤ) (k : ℕ) (s : State R L) {stock : ℤ}
      (deducted : w.deducting ≡ answered) (recorded : w.recording ≡ answered)
      (held : R.get s.stock (whole req.product_id) ≡ some stock) (enough : req.quantity ≤ℤ stock)
      (positive : pos 1 ≤ℤ req.quantity) (fresh : L.get s.entries req.request_id ≡ none) where
    -- the state after the crash
    unfoldable pub crashed : State R L
    crashed = record {
      stock = R.put s.stock (whole req.product_id) (stock -ℤ req.quantity);
      entries = L.put s.entries req.request_id (entry_of req now);
    }

    recorded_lem :
        record_script R L req now record {
          stock = R.put s.stock (whole req.product_id) (stock -ℤ req.quantity);
          entries = s.entries;
        }
        ≡ (crashed, tt)
    unfolding record_script crashed
    recorded_lem = rw (fresh, record_script) refl

    pub crash_lem :
        enqueue_with_ledger R L w req now (some (pos (suc k))) s
        ≡ (crashed, some (pos (suc k) -ℤ pos 1), some (sentinel simulated_crash))
    unfolding enqueue_with_ledger
    crash_lem =
        rw
          (
            deducted,
            script_lem (whole req.product_id) req.quantity stock s.stock held enough,
            not_minus_one (stock -ℤ req.quantity) (omega int_laws),
            recorded,
            armed k,
            recorded_lem,
          )
          refl

    pub crashed_open : open_at R L crashed req.request_id ≡ true
    unfolding crashed
    crashed_open = rw (L.get-put_self s.entries req.request_id (entry_of req now)) refl

    crashed_entry : L.get crashed.entries req.request_id ≡ some (entry_of req now)
    unfolding crashed
    crashed_entry = L.get-put_self s.entries req.request_id (entry_of req now)

    pub crashed_stock : number_at R crashed.stock (whole req.product_id) ≡ stock -ℤ req.quantity
    unfolding crashed
    crashed_stock = ap number (R.get-put_self s.stock (whole req.product_id) _)

    -- the state after the reconciliation
    mended : State R L
    unfolding crashed
    mended = record {
      stock =
          R.put crashed.stock (whole req.product_id)
            (number_at R crashed.stock (whole req.product_id) +ℤ req.quantity);
      entries =
          L.put crashed.entries req.request_id (record (entry_of req now) { state = reconciled });
    }

    mended_lem :
        (window later : ℤ)
        → window ≤ℤ (later -ℤ now)
        → reconcile_entry R L (ok false) answered (entry_of req now) window later crashed
          ≡ (mended, ok refunded)
    unfolding reconcile_entry crashed mended
    mended_lem window later old =
        rw
          (
            not_short (later -ℤ now) window old,
            L.get-put_self s.entries req.request_id (entry_of req now),
            more_than_none req.quantity positive,
          )
          refl

    mended_stock : number_at R mended.stock (whole req.product_id) ≡ stock
    unfolding mended
    mended_stock =
        ap number (R.get-put_self crashed.stock (whole req.product_id) _)
        ∙ ap (λ n. n +ℤ req.quantity) crashed_stock
        ∙ taken_and_back stock req.quantity

    mended_shut : open_at R L mended req.request_id ≡ false
    unfolding mended
    mended_shut = rw (L.get-put_self crashed.entries req.request_id _) refl

    -- A crash after the deduction, of a quantity of at least one that the stock covers, for a request
    -- without an entry and with both scripts answered, takes the quantity from the stock and leaves the
    -- request's own entry in the ledger, and the request fails; the reconciliation of that entry, if it
    -- is old enough, the request has no order and the call is answered, refunds it, after which the
    -- stock is what it was and the entry is closed.
    pub crash_reconciled :
        (window later : ℤ)
        → window ≤ℤ (later -ℤ now)
        → let (t, _, failed) = enqueue_with_ledger R L w req now (some (pos (suc k))) s in
          let (u, r) = reconcile_entry R L (ok false) answered (entry_of req now) window later t in
          (failed ≡ some (sentinel simulated_crash))
          × (L.get t.entries req.request_id ≡ some (entry_of req now))
          × (number_at R t.stock (whole req.product_id) ≡ stock -ℤ req.quantity)
          × (r ≡ ok refunded)
          × (number_at R u.stock (whole req.product_id) ≡ stock)
          × (open_at R L u req.request_id ≡ false)
    crash_reconciled window later old =
        rw (crash_lem, mended_lem window later old)
          (refl, crashed_entry, crashed_stock, refl, mended_stock, mended_shut)
