-- ===== src/Scenarios/Stocks.antt =====
-- The theorems on the stock in Redis at concrete inputs.
use seckill.Bucket.Spread.ReadBack.{total_remaining-spread_stock}
use seckill.Bucket.Spread.{spread_stock, total_remaining, sum}
use seckill.Reconcile.Repeat.{Review, reviewed, repeat_leaks}
use seckill.Reconcile.Ledger.{World as Deductions, enqueue_with_ledger}
use seckill.Errors.{sentinel, simulated_crash, driver}
use seckill.Prelude.{length, ℤ, List, arith, ℕ, zero, suc}
use seckill.Reconcile.Settle.{Judges, reconcile_entry-Judges}
use seckill.Stores.Keyspace.{number_at}
use seckill.Deduct.PreDeduct.Identity.{total_at, place_order_with_pre_deduct-Balances}
use seckill.Errors.{ok}
use seckill.Stores.Call.{answered, answer_lost, Fate}
use seckill.Inventory.Safety.{accounted, ask_all, reserves, restores, ask_all-accounted}
use seckill.Scenarios.Memory.{
  calm, buy_two, five, empty, stocks, tables, by_request, ten, phone, ten-phone,
}
use seckill.Deduct.PreDeduct.{place_order_with_pre_deduct}
use seckill.Deduct.Stock.{whole}
use seckill.Deduct.Stock.Laws.{deduct_all, deduct_all-le-stock}
use seckill.Prelude.{pos, none, ◌≡◌, ◌∷◌, some, [], ◌-ℤ◌, ◌≤ℤ◌, refl, ◌+ℤ◌, int_laws, false}
use seckill.Inventory.Ledger.{Entry, State, ReservationRequest}
use seckill.Reconcile.Ledger.{Entry as LedgerEntry, State as Books, entry_of, reconcile_entry}

five-there : stocks.get five (whole (pos 1)) ≡ some (pos 5)
five-there = stocks.get-put_self empty (whole (pos 1)) (pos 5)

deduct_all-le-stock_example :
    let (t, n) =
      deduct_all stocks (whole (pos 1)) ((answered, pos 2) ∷ (answered, pos 4) ∷ []) five in
    (pos 0 ≤ℤ number_at stocks t (whole (pos 1)))
    × (n +ℤ number_at stocks t (whole (pos 1)) ≤ℤ number_at stocks five (whole (pos 1)))
deduct_all-le-stock_example =
    deduct_all-le-stock stocks (whole (pos 1)) ((answered, pos 2) ∷ (answered, pos 4) ∷ []) five
      (omega int_laws, (omega int_laws, tt)) (rw five-there (omega int_laws))

place_order_with_pre_deduct-Balances_example :
    let a = place_order_with_pre_deduct stocks tables calm answered answered buy_two five ten in
    total_at stocks tables (whole (pos 1)) (pos 1) a.redis a.db
    ≡ total_at stocks tables (whole (pos 1)) (pos 1) five ten
place_order_with_pre_deduct-Balances_example =
    place_order_with_pre_deduct-Balances stocks tables calm answered answered buy_two five ten refl
      tt tt

-- Bucket 3 of 4 is empty, and the fifth piece is in bucket 0, whose answer is lost.
abbrev last_lost : ℕ → Fate
last_lost zero = answered
last_lost (suc k) = answer_lost (driver 7)

abbrev shelf : State stocks (by_request Entry)
shelf = record { stock = five; entries = λ r. none }

abbrev wish : ReservationRequest
wish = record { request_id = "r1"; product_id = pos 1; quantity = pos 2 }

ask_all-accounted_example :
    accounted stocks (by_request Entry) wish (
      ask_all stocks
        (by_request Entry)
        wish
        (reserves answered ∷ reserves answered ∷ restores answered ∷ [])
        shelf)
    ≡ accounted stocks (by_request Entry) wish shelf
ask_all-accounted_example =
    ask_all-accounted stocks (by_request Entry) wish
      (reserves answered ∷ reserves answered ∷ restores answered ∷ []) shelf

abbrev stuck : LedgerEntry
stuck = entry_of buy_two (pos 10)

abbrev books : Books stocks (by_request LedgerEntry)
books = record { stock = five; entries = (by_request LedgerEntry).put (λ r. none) "r1" stuck }

reconcile_entry-Judges_example :
    let (t, r) =
      reconcile_entry stocks
        (by_request LedgerEntry)
        (ok false)
        answered
        stuck
        (pos 30)
        (pos 99)
        books in
    Judges stocks (by_request LedgerEntry) (ok false) stuck (pos 30) (pos 99) books t r
reconcile_entry-Judges_example =
    reconcile_entry-Judges stocks (by_request LedgerEntry) (ok false) answered stuck (pos 30)
      (pos 99) books

total_remaining-spread_stock_example :
    let (t, r) = spread_stock stocks tables calm answered (pos 1) (pos 4) ten five in
    (plan : List ℤ) × (r ≡ some (ok plan))
    × (length plan ≡ 4)
    × (sum plan ≡ phone.stock)
    × (total_remaining stocks answered (pos 1) (pos 4) t ≡ (t, some (ok (phone.stock, plan))))
total_remaining-spread_stock_example =
    total_remaining-spread_stock stocks (pos 1) tables calm 3 10 ten five phone refl ten-phone refl

-- The five pieces that a first crash has left, and its open entry.
abbrev again : Deductions stocks (by_request LedgerEntry)
again = record {
  deducting = answered;
  recording = answered;
  produced = none;
  rolling_back = answered;
  settling = answered;
}

-- The tables have no order, and the script runs.
abbrev reviews : List (Review stocks (by_request LedgerEntry))
reviews = record { asked = ok false; fate = answered; window = pos 60; now = pos 100 } ∷ []

repeat_leaks_example :
    let (t, _, failed) =
      enqueue_with_ledger stocks
        (by_request LedgerEntry)
        again
        buy_two
        (pos 20)
        (some (pos 1))
        books in
    let u = reviewed stocks (by_request LedgerEntry) stuck reviews t in
    (failed ≡ some (sentinel simulated_crash))
    × (number_at stocks t.stock (whole (pos 1)) ≡ pos 5 -ℤ pos 2)
    × (number_at stocks u.stock (whole (pos 1)) ≤ℤ pos 5)
repeat_leaks_example =
    repeat_leaks stocks (by_request LedgerEntry) again buy_two (pos 10) (pos 20) 0 books refl refl
      five-there (omega arith) (omega arith)
      ((by_request LedgerEntry).get-put_self (λ r. none) "r1" stuck) reviews
