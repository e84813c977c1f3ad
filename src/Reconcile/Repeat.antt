-- ===== src/Reconcile/Repeat.antt =====
-- internal/reconcile: a request that crashes, is repeated and crashes again, and the reconciliations
-- that follow.
use seckill.Stores.Call.{Fate, answered}
use seckill.Errors.{Result, sentinel, simulated_crash}
use seckill.Prelude.{
  ℤ, String, List, ◌+ℤ◌, Bool, pos, ◌∷◌, ◌≤ℤ◌, if◌then◌else◌, arith, [], Bool-cases, inl, int_laws,
  inr, ltb_ℤ, ◌≡◌, true, false, ℕ, some, ◌-ℤ◌, suc, ap, refl,
}
use seckill.Deduct.Stock.{StockKey, whole}
use seckill.Stores.Keyspace.{Keyspace, number_at, number}
use seckill.Reconcile.Settle.{
  open_at, Judges, leaves, runs, Settles, closes, skips, reconcile_entry-Judges,
}
use seckill.Order.Statements.{PlaceOrderRequest}
use seckill.Reconcile.Crash.{not_minus_one, armed, script_lem}
use seckill.Reconcile.Ledger.{
  Entry, State, World, entry_of, enqueue_with_ledger, reconcile_entry, record_script, Outcome,
}

more_or_none : (q : ℤ) → pos 1 ≤ℤ q → ltb_ℤ (pos 0) q ≡ true
more_or_none q h = ground arith

refund_bound :
    (ordered : Bool) (n q : ℤ)
    → pos 1 ≤ℤ q
    → let r = if ordered then pos 0 else q in
      (n +ℤ (if ltb_ℤ (pos 0) r then r else pos 0) +ℤ pos 0) ≤ℤ (n +ℤ q)
refund_bound true n q positive = omega int_laws
refund_bound false n q positive = rw (more_or_none q positive) (omega int_laws)

below : (u t n q : ℤ) → u ≤ℤ t → t ≤ℤ (n -ℤ q +ℤ q) → u ≤ℤ n
below u t n q h k = omega int_laws

module _ (R : Keyspace StockKey ℤ) (L : Keyspace String Entry) where
  -- A call of `ReconcileEntry`: the answer of the tables, the fate of its script, its window and time.
  pub record Review : Type 0 where
    pub asked : Result Bool
    pub fate : Fate
    pub window : ℤ
    pub now : ℤ

  -- One entry, as the scan read it, reviewed again and again.
  unfoldable pub reviewed : Entry → List Review → State R L → State R L
  unfolding reconcile_entry
  reviewed e [] s = s
  reviewed e (v ∷ vs) s = reviewed e vs (reconcile_entry R L v.asked v.fate e v.window v.now s).0

  -- The stock of the entry's product, and what a refund can still add to it.
  promised : Entry → State R L → ℤ
  promised e s =
      number_at R s.stock (whole e.product_id)
      +ℤ (if open_at R L s e.request_id then e.quantity else pos 0)

  Settles-promised :
      (e : Entry) (ordered : Bool) (s t : State R L) (b : Bool)
      → pos 1 ≤ℤ e.quantity
      → Settles R L e (if ordered then pos 0 else e.quantity) s t b
      → promised e t ≤ℤ promised e s
  unfolding promised
  Settles-promised e ordered s t b positive (closes _ was now more others keys) =
      rw (was, now, more) (refund_bound ordered _ e.quantity positive)
  Settles-promised e ordered s t b positive (skips _ was same) = rw same (omega arith)

  review-promised :
      (e : Entry) (v : Review) (s : State R L)
      → pos 1 ≤ℤ e.quantity
      → promised e (reconcile_entry R L v.asked v.fate e v.window v.now s).0 ≤ℤ promised e s
  review-promised e v s positive =
      from (reconcile_entry-Judges R L v.asked v.fate e v.window v.now s)
    where
      from :
          {t : State R L} {r : Result Outcome}
          → Judges R L v.asked e v.window v.now s t r
          → promised e t ≤ℤ promised e s
      from (leaves same _) = rw same (omega arith)
      from {t} (runs ordered b _ _ _ settling _) =
          Settles-promised e ordered s t b positive settling

  reviewed-promised :
      (e : Entry) (vs : List Review) (s : State R L)
      → pos 1 ≤ℤ e.quantity
      → promised e (reviewed e vs s) ≤ℤ promised e s
  unfolding reviewed
  reviewed-promised e [] s positive = omega arith
  reviewed-promised e (v ∷ vs) s positive =
      let first = review-promised e v s positive in
      let rest =
        reviewed-promised e vs (reconcile_entry R L v.asked v.fate e v.window v.now s).0 positive in
      omega (arith, first, rest)

  stock-le-promised :
      (e : Entry) (s : State R L)
      → pos 1 ≤ℤ e.quantity
      → number_at R s.stock (whole e.product_id) ≤ℤ promised e s
  unfolding promised
  stock-le-promised e s positive = elim (Bool-cases (open_at R L s e.request_id)) [
    | inl o ↦ rw o (omega int_laws)
    | inr c ↦ rw c (omega int_laws)
  ]

  module _ (w : World R L) (req : PlaceOrderRequest) (first again : ℤ) (k : ℕ) (s : State R L)
      {stock : ℤ} (deducted : w.deducting ≡ answered) (recorded : w.recording ≡ answered)
      (held : R.get s.stock (whole req.product_id) ≡ some stock) (enough : req.quantity ≤ℤ stock)
      (positive : pos 1 ≤ℤ req.quantity)
      (there : L.get s.entries req.request_id ≡ some (entry_of req first)) where
    -- the state after the second crash
    twice : State R L
    twice = record {
      stock = R.put s.stock (whole req.product_id) (stock -ℤ req.quantity);
      entries = s.entries;
    }

    recorded_lem : record_script R L req again twice ≡ (twice, tt)
    unfolding record_script twice
    recorded_lem = rw (there, record_script) refl

    twice_lem :
        enqueue_with_ledger R L w req again (some (pos (suc k))) s
        ≡ (twice, some (pos (suc k) -ℤ pos 1), some (sentinel simulated_crash))
    unfolding enqueue_with_ledger twice
    twice_lem =
        rw
          (
            deducted,
            script_lem R L (whole req.product_id) req.quantity stock s.stock held enough,
            not_minus_one (stock -ℤ req.quantity) (omega int_laws),
            recorded,
            armed k,
            recorded_lem,
          )
          refl

    twice_stock : number_at R twice.stock (whole req.product_id) ≡ stock -ℤ req.quantity
    unfolding twice
    twice_stock = ap number (R.get-put_self s.stock (whole req.product_id) _)

    twice-promised : promised (entry_of req first) twice ≡ stock -ℤ req.quantity +ℤ req.quantity
    unfolding promised twice
    twice-promised =
        rw (there, R.get-put_self s.stock (whole req.product_id) (stock -ℤ req.quantity)) refl

    -- A request whose first call crashed and left an open entry is repeated, and crashes again: its
    -- quantity is deducted once more, and whatever reviews of its entry follow, the stock does not come
    -- above what it was before the repetition, so that one of the two deductions is never refunded.
    pub repeat_leaks :
        (vs : List Review)
        → let (t, _, failed) = enqueue_with_ledger R L w req again (some (pos (suc k))) s in
          let u = reviewed (entry_of req first) vs t in
          (failed ≡ some (sentinel simulated_crash))
          × (number_at R t.stock (whole req.product_id) ≡ stock -ℤ req.quantity)
          × (number_at R u.stock (whole req.product_id) ≤ℤ stock)
    repeat_leaks vs =
        let e = entry_of req first in
        let shown = stock-le-promised e (reviewed e vs twice) positive in
        let bounded = rw twice-promised at (reviewed-promised e vs twice positive) in
        rw twice_lem (refl, twice_stock, below _ _ stock req.quantity shown bounded)
