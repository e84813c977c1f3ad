-- ===== src/Reconcile/Settle.antt =====
-- internal/reconcile/p2_reconcile.go: an entry is settled at most once, and refunded only if the
-- request is old and has no order.
use seckill.Stores.Call.{call, Fate, not_made, answer_lost, answered}
use seckill.Errors.{Result, ok, err}
use seckill.Reconcile.Ledger.{
  Entry, State, settle_found, settle_script, settle_entry, reconcile_entry, settled_as, Outcome,
  pending, is_pending, refunded, LedgerState, judge, reconciled, settled,
}
use seckill.Prelude.{
  ℤ, String, if◌then◌else◌, ◌≡◌, Bool, ltb_ℤ, ◌+ℤ◌, Option, pos, true, some, none, false, int_laws,
  Bool-cases, ◌≢◌, ◌≤ℤ◌, inr, ◌-ℤ◌, inl, refl, arith,
}
use seckill.Deduct.Stock.{StockKey, whole}
use seckill.Stores.Keyspace.{Keyspace, number_at}

module _ (R : Keyspace StockKey ℤ) (L : Keyspace String Entry) where
  abbrev open_of : Option Entry → Bool
  open_of none = false
  open_of (some e) = is_pending e.state

  -- whether the store has an open entry for a request
  abbrev pub open_at : State R L → String → Bool
  open_at s r = open_of (L.get s.entries r)

  abbrev at_least_zero : ℤ → ℤ
  at_least_zero qty = if ltb_ℤ (pos 0) qty then qty else pos 0

  -- The entry was open; it is closed now, the quantity, if positive, is added to the stock of its
  -- product, and neither another entry nor another key of the stock changes. Or the entry was not open,
  -- and nothing changes.
  pub data Settles (e : Entry) (qty : ℤ) (s t : State R L) (b : Bool) : Type 0 where
    closes :
        b ≡ true
        → open_at s e.request_id ≡ true
        → open_at t e.request_id ≡ false
        → number_at R t.stock (whole e.product_id)
          ≡ number_at R s.stock (whole e.product_id) +ℤ at_least_zero qty
        → ((r : String) → r ≢ e.request_id → L.get t.entries r ≡ L.get s.entries r)
        → ((k : StockKey) → k ≢ whole e.product_id → R.get t.stock k ≡ R.get s.stock k)
        → Settles e qty s t b
    skips : b ≡ false → open_at s e.request_id ≡ false → t ≡ s → Settles e qty s t b

  plus_zero : (a : ℤ) → a ≡ a +ℤ pos 0
  plus_zero a = omega int_laws

  settle_found-Settles :
      (e : Entry) (qty : ℤ) (s : State R L) (o : Option Entry)
      → L.get s.entries e.request_id ≡ o
      → let (t, b) = settle_found R L e qty s o in Settles e qty s t b
  unfolding settle_found
  settle_found-Settles e qty s none h = skips refl (rw h refl) refl
  settle_found-Settles e qty s (some f) h = elim (Bool-cases (is_pending f.state)) [
    | inr shut ↦ rw shut (skips refl (rw h shut) refl)
    | inl there ↦ elim (Bool-cases (ltb_ℤ (pos 0) qty)) [
      | inl more ↦
          rw (there, more)
            (closes refl (rw h there) (rw (L.get-put_self s.entries e.request_id _) refl)
              (rw (more, R.get-put_self s.stock (whole e.product_id) _) refl)
              (λ r ne. L.get-put_ne s.entries r e.request_id _ ne)
              (λ k ne. R.get-put_ne s.stock k (whole e.product_id) _ ne))
      | inr same ↦
          rw (there, same)
            (closes refl (rw h there) (rw (L.get-put_self s.entries e.request_id _) refl)
              (rw same (plus_zero _)) (λ r ne. L.get-put_ne s.entries r e.request_id _ ne)
              (λ k ne. refl))
    ]
  ]

  pub settle_script-Settles :
      (e : Entry) (qty : ℤ) (s : State R L)
      → let (t, b) = settle_script R L e qty s in Settles e qty s t b
  unfolding settle_script
  settle_script-Settles e qty s = settle_found-Settles e qty s _ refl

  -- What one call of `ReconcileEntry` comes to: nothing changes and it is not a refund; or the script
  -- ran, for no quantity if the request has an order, and for its quantity if it has none.
  pub data Judges (asked : Result Bool) (e : Entry) (window now : ℤ) (s t : State R L)
      (r : Result Outcome) : Type 0 where
    leaves : t ≡ s → r ≢ ok refunded → Judges asked e window now s t r
    runs :
        (ordered b : Bool)
        → e.state ≡ pending
        → window ≤ℤ (now -ℤ e.created_at)
        → asked ≡ ok ordered
        → Settles e (if ordered then pos 0 else e.quantity) s t b
        → (r ≡ ok refunded → (ordered ≡ false) × (b ≡ true))
        → Judges asked e window now s t r

  settles-Judges :
      (fate : Fate) (asked : Result Bool) (e : Entry) (window now : ℤ) (s : State R L)
      (ordered : Bool) (o : Outcome)
      → e.state ≡ pending
      → window ≤ℤ (now -ℤ e.created_at)
      → asked ≡ ok ordered
      → (o ≡ refunded → ordered ≡ false)
      → let (t, r) =
          settled_as R L o (settle_entry R L fate e (if ordered then pos 0 else e.quantity) s) in
        Judges asked e window now s t r
  unfolding settle_entry settled_as call
  settles-Judges (not_made x) asked e window now s ordered o p w a f = leaves refl (λ h. cc)
  settles-Judges (answer_lost x) asked e window now s ordered o p w a f =
      runs ordered _ p w a (settle_script-Settles e _ s) (λ h. cc)
  settles-Judges answered asked e window now s ordered o p w a f =
      from_script (settle_script-Settles e (if ordered then pos 0 else e.quantity) s)
    where
      named : (x : Result Outcome) → x ≡ ok o → x ≡ ok refunded → o ≡ refunded
      named x g h = cc

      from_script :
          {t : State R L} {b : Bool}
          → Settles e (if ordered then pos 0 else e.quantity) s t b
          → let (u, r) = settled_as R L o (t, ok b) in Judges asked e window now s u r
      from_script {t} {b = true} d = runs ordered true p w a d (λ h. (f (named _ refl h), refl))
      from_script {t} {b = false} d = runs ordered false p w a d (λ h. cc)

  is_pending_eq : (st : LedgerState) → is_pending st ≡ true → st ≡ pending
  is_pending_eq pending h = refl
  is_pending_eq reconciled h = cc

  not_before : (a b : ℤ) → ltb_ℤ a b ≡ false → b ≤ℤ a
  not_before a b h = ground arith

  judge-Judges :
      (asked : Result Bool) (fate : Fate) (e : Entry) (window now : ℤ) (s : State R L)
      → e.state ≡ pending
      → window ≤ℤ (now -ℤ e.created_at)
      → let (t, r) = judge R L asked fate e s in Judges asked e window now s t r
  unfolding judge
  judge-Judges (err x) fate e window now s p w = leaves refl (λ h. cc)
  judge-Judges (ok true) fate e window now s p w =
      settles-Judges fate (ok true) e window now s true settled p w refl (λ h. cc)
  judge-Judges (ok false) fate e window now s p w =
      settles-Judges fate (ok false) e window now s false refunded p w refl (λ h. refl)

  -- `ReconcileEntry` changes nothing and refunds nothing, or the entry is pending and at least as old as
  -- the window, the tables have answered, and the script has run. The script closes the entry if it is
  -- still open in the ledger, and with it adds the quantity, if positive, to the stock of the product if
  -- the request has no order, and nothing if it has one; no other entry and no other key of the stock changes. A
  -- refund is reported only of a request without an order whose entry was open.
  pub reconcile_entry-Judges :
      (asked : Result Bool) (fate : Fate) (e : Entry) (window now : ℤ) (s : State R L)
      → let (t, r) = reconcile_entry R L asked fate e window now s in
        Judges asked e window now s t r
  unfolding reconcile_entry
  reconcile_entry-Judges asked fate e window now s = elim (Bool-cases (is_pending e.state)) [
    | inr shut ↦ rw (shut, reconcile_entry) (leaves refl (λ h. cc))
    | inl there ↦ elim (Bool-cases (ltb_ℤ (now -ℤ e.created_at) window)) [
      | inl soon ↦ rw (there, soon, reconcile_entry) (leaves refl (λ h. cc))
      | inr late ↦
          rw (there, late, reconcile_entry)
            (judge-Judges asked fate e window now s (is_pending_eq e.state there)
              (not_before (now -ℤ e.created_at) window late))
    ]
  ]
