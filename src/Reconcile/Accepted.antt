-- ===== src/Reconcile/Accepted.antt =====
-- internal/reconcile/p2_reconcile.go: what `EnqueueWithLedger` has done when it returns no error.
use seckill.Reconcile.Crash.{script_lem, not_minus_one}
use seckill.Stores.Call.{call, Fate, not_made, answer_lost, answered}
use seckill.Errors.{Result, Error, err, ok}
use seckill.Prelude.{
  ℤ, String, Bool, ◌≢◌, none, ◌≡◌, Option, ◌≤ℤ◌, Option-cases, some, inl, ◌-ℤ◌, inr, pos, true,
  false, ap, ◌∙◌, int_laws,
}
use seckill.Deduct.Stock.{StockKey, whole}
use seckill.Stores.Keyspace.{Keyspace, number_at, number}
use seckill.Reconcile.Ledger.{
  Entry, State, World, entry_of, enqueue_with_ledger, record_script, after_crash, ledger_recorded,
  ledger_deducted, settle_failure, settle_entry, fire,
}
use seckill.Order.Statements.{PlaceOrderRequest}
use mathlib.Core.Path.{refl}
use seckill.Deduct.Stock.Laws.{
  grants, declines, unsent, unanswered, PreDeducts, pre_deduct-PreDeducts,
}

module _ (R : Keyspace StockKey ℤ) (L : Keyspace String Entry) where
  -- The stock covered the quantity and was lowered by it, the request has an entry, and the message was
  -- produced.
  pub record Accepted (w : World R L) (req : PlaceOrderRequest) (s t : State R L) : Type 0 where
    pub produced : w.produced ≡ none
    pub covered : req.quantity ≤ℤ number_at R s.stock (whole req.product_id)
    pub taken :
        number_at R t.stock (whole req.product_id)
        ≡ number_at R s.stock (whole req.product_id) -ℤ req.quantity
    pub entry : Entry
    pub there : L.get t.entries req.request_id ≡ some entry

  after_crash-none :
      (w : World R L) (req : PlaceOrderRequest) (f : Option ℤ × Bool) (s : State R L)
      (undo : State R L → Error → State R L × Option Error)
      → ((t : State R L) (e : Error) → (undo t e).1 ≢ none)
      → (after_crash R L w req f s undo).2 ≡ none
      → (w.produced ≡ none) × ((after_crash R L w req f s undo).0 ≡ s)
  unfolding after_crash
  after_crash-none w req (c, true) s undo never h = cc
  after_crash-none w req (c, false) s undo never h = elim (Option-cases w.produced) [
    | inl fine ↦ (fine, rw (after_crash, fine) refl)
    | inr (e, failed) ↦ absurd (never _ e (rw failed at h))
  ]

  settle_failure-ne : (r : State R L × Result Bool) (e : Error) → (settle_failure R L r e).1 ≢ none
  unfolding settle_failure
  settle_failure-ne (s, err f) e h = cc
  settle_failure-ne (s, ok b) e h = cc

  record_there :
      (req : PlaceOrderRequest) (now : ℤ) (s : State R L)
      → let (t, _) = record_script R L req now s in
        (t.stock ≡ s.stock) × ((f : Entry) × (L.get t.entries req.request_id ≡ some f))
  unfolding record_script
  record_there req now s = elim (Option-cases (L.get s.entries req.request_id)) [
    | inl new ↦
        rw (record_script, new)
          (refl, (entry_of req now, L.get-put_self s.entries req.request_id (entry_of req now)))
    | inr (f, old) ↦ rw (record_script, old) (refl, (f, old))
  ]

  -- from the call that records the entry on
  recorded_none :
      (w : World R L) (req : PlaceOrderRequest) (now : ℤ) (crash : Option ℤ) (fate : Fate)
      (s : State R L)
      → let r = ledger_recorded R L w req now crash (call fate (record_script R L req now) s) in
        r.2 ≡ none
        → (w.produced ≡ none)
          × (r.0.stock ≡ s.stock)
          × ((f : Entry) × (L.get r.0.entries req.request_id ≡ some f))
  unfolding ledger_recorded call
  recorded_none w req now crash answered s h =
      let undo = λ (t : State R L) (e : Error).
        settle_failure R L (settle_entry R L w.settling (entry_of req now) (pos 0) t) e in
      let t = (record_script R L req now s).0 in
      let (fine, kept) =
        after_crash-none w req (fire crash) t undo (λ u e. settle_failure-ne _ e) h in
      let there = record_there req now s in rw kept (fine, there.0, there.1)
  recorded_none w req now crash (not_made e) s h = cc
  recorded_none w req now crash (answer_lost e) s h = cc

  -- from the answer to the deduction on
  deducted_none :
      (w : World R L) (req : PlaceOrderRequest) (now : ℤ) (crash : Option ℤ) (s : State R L)
      (t : R.State) (r : Result ℤ)
      → PreDeducts R (whole req.product_id) req.quantity s.stock t r
      → let a =
          ledger_deducted R L w req now crash (record { stock = t; entries = s.entries }, r) in
        a.2 ≡ none → Accepted w req s a.0
  unfolding ledger_deducted
  deducted_none w req now crash s t (err x) p h = cc
  deducted_none w req now crash s t (ok n) (grants left e covered _ now_left left_eq _) h =
      let (fine, kept, (f, there)) =
        recorded_none w req now crash w.recording (record { stock = t; entries = s.entries }) h in
      record {
        produced = fine;
        covered = covered;
        taken =
            ap (λ (u : R.State). number_at R u (whole req.product_id)) kept
            ∙ ap number now_left
            ∙ left_eq;
        entry = f;
        there = there;
      }
  deducted_none w req now crash s t (ok n) (declines e _) h = cc
  deducted_none w req now crash s t (ok n) (unsent x e _) h = cc
  deducted_none w req now crash s t (ok n) (unanswered x e _) h = cc

  -- `EnqueueWithLedger` returns no error only for a request whose message it produced, after taking
  -- its quantity from a stock that covers it and with an entry in the ledger.
  pub enqueue_with_ledger-Accepted :
      (w : World R L) (req : PlaceOrderRequest) (now : ℤ) (crash : Option ℤ) (s : State R L)
      → let r = enqueue_with_ledger R L w req now crash s in r.2 ≡ none → Accepted w req s r.0
  unfolding enqueue_with_ledger
  enqueue_with_ledger-Accepted w req now crash s h =
      deducted_none w req now crash s _ _
        (pre_deduct-PreDeducts R w.deducting (whole req.product_id) req.quantity s.stock) h

  -- With no call failing and no crash armed, a quantity that the stock covers is accepted.
  pub enqueue_with_ledger_accepts :
      (w : World R L) (req : PlaceOrderRequest) (now : ℤ) (s : State R L) {stock : ℤ}
      → w.deducting ≡ answered
      → w.recording ≡ answered
      → w.produced ≡ none
      → R.get s.stock (whole req.product_id) ≡ some stock
      → req.quantity ≤ℤ stock
      → (enqueue_with_ledger R L w req now none s).2 ≡ none
  unfolding enqueue_with_ledger ledger_deducted ledger_recorded after_crash fire
  enqueue_with_ledger_accepts w req now s {stock} deducted recorded produced held enough =
      rw
        (
          deducted,
          script_lem R L (whole req.product_id) req.quantity stock s.stock held enough,
          not_minus_one (stock -ℤ req.quantity) (omega int_laws),
          recorded,
          produced,
        )
        refl
