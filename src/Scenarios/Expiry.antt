-- ===== src/Scenarios/Expiry.antt =====
-- The theorems on orders that expire, on a day of sales and on a crash at concrete inputs.
use seckill.Reconcile.Crash.{crash_reconciled}
use seckill.Stores.Keyspace.{number_at}
use seckill.Prelude.{string_dec, ◌-ℤ◌, int_laws, Option, ◌≤◌, length, ◌<◌, String}
use seckill.Expire.Latency.Fractions.{Fraction}
use seckill.Errors.{ok, sentinel, simulated_crash}
use seckill.Order.Spec.Refinement.{view, Call, serve_all, by_lock, serve_all-Day, by_condition}
use seckill.Stores.Call.{answered}
use seckill.Expire.Index.{claim_due_script}
use seckill.Expire.Index.Claims.{Claim, claims, claim_due_once, claim_due_drains}
use seckill.Expire.Close.{find_by_id}
use seckill.Expire.Close.Attempts.{
  Failed, Attempt, together, attempts, attempts_together, stock_of, attempts_shut,
}
use seckill.Deduct.Stock.{whole}
use seckill.Order.Spec.{Day}
use seckill.Prelude.{
  pos, none, List, ◌∷◌, [], inl, ◌+◌, IsIn, inr, ◌≡◌, refl, some, arith, ℕ, false,
}
use seckill.Stores.Database.{closed, Order, created}
use seckill.Scenarios.Memory.{
  calm, buy_two, five, empty, tables, ten, stocks, by_request, Tables, chosen_yes,
}
use seckill.Reconcile.Ledger.{
  Entry, State, World, entry_of, enqueue_with_ledger, reconcile_entry, refunded,
}
use seckill.Reconcile.Settle.{open_at}
use seckill.Scenarios.Scores.{scores, Entries}

abbrev two_ways : List (Call tables)
two_ways = by_lock calm ten buy_two ∷ by_condition calm (record buy_two { request_id = "r2" }) ∷ []

serve_all-Day_example : Day (view tables ten) (view tables (serve_all tables two_ways ten))
serve_all-Day_example = serve_all-Day tables two_ways ten

-- the percentile 1/2, with exact arithmetic
abbrev half : Fraction
half = record { num = pos 1; less = 1 }

abbrev unpaid : Order
unpaid = record {
  id = pos 5;
  product_id = pos 1;
  user_id = pos 7;
  request_id = "r1";
  quantity = pos 2;
  status = created;
  created_at = 3;
}

abbrev open_order : Tables
open_order = record ten { rows = unpaid ∷ [] }

abbrev worker : Attempt tables
worker = record {
  seen = open_order;
  meets = record { selecting = none; updating = answered; counting = none };
  restoring = answered;
}

worker-Failed : ¬ Failed tables stocks (pos 5) (pos 1) (pos 2) worker
worker-Failed (inl h) = h refl
worker-Failed (inr (inl h)) = h refl
worker-Failed (inr (inr (e, h))) = cc

attempts_together_example :
    together tables stocks
      (pos 5)
      (pos 1)
      (pos 2)
      (attempts tables stocks (pos 5) (pos 1) (pos 2) (worker ∷ worker ∷ []) (open_order, five))
    ≡ together tables stocks (pos 5) (pos 1) (pos 2) (open_order, five)
unfolding find_by_id
attempts_together_example =
    attempts_together tables stocks (pos 5) (pos 1) (pos 2) (worker ∷ worker ∷ [])
      (open_order, five) (refl, refl) ((refl, refl), ((refl, refl), tt))
      (worker-Failed, (worker-Failed, tt))

-- the same order, closed by a worker that stopped before the script
abbrev shut_order : Tables
shut_order = record ten { rows = record unpaid { status = closed } ∷ [] }

attempts_shut_example :
    stock_of tables stocks
      (pos 5)
      (pos 1)
      (pos 2)
      (attempts tables stocks (pos 5) (pos 1) (pos 2) (worker ∷ []) (shut_order, five))
    ≡ stock_of tables stocks (pos 5) (pos 1) (pos 2) (shut_order, five)
unfolding find_by_id
attempts_shut_example =
    attempts_shut tables stocks (pos 5) (pos 1) (pos 2) (worker ∷ []) (shut_order, five)
      (omega int_laws) (refl, refl) refl ((refl, refl), tt)

abbrev waiting : Entries
waiting = ("5", 100) ∷ []

five_due : IsIn "5" (claim_due_script scores 180 10 (180 + 60) waiting).1
unfolding claim_due_script
five_due = rw (chosen_yes {W = Option ℕ} (string_dec "5" "5") (some 100) none refl) (inl refl)

abbrev again : Claim scores
again = record { fate = answered; now = 200; batch_size = 10; claim_extension = 60 }

claim_due_once_example :
    let (s', due) = claim_due_script scores 180 10 (180 + 60) waiting in
    ((t : ℕ) × (scores.score waiting "5" ≡ some t) × (t ≤ 180))
    × (scores.score s' "5" ≡ some (180 + 60))
    × (¬ IsIn "5" (claims scores (again ∷ []) s').1)
unfolding claim_due_script
claim_due_once_example =
    claim_due_once scores 180 10 60 waiting (again ∷ []) "5" five_due (omega arith, tt)

claim_due_drains_example :
    let (s', due) = claim_due_script scores 180 10 (180 + 60) waiting in
    (length due ≤ 10)
    × (length due < 10 → (x : String) (t : ℕ) → scores.score s' x ≡ some t → 180 < t)
claim_due_drains_example = claim_due_drains scores 180 10 60 waiting (omega arith)

abbrev books : State stocks (by_request Entry)
books = record { stock = five; entries = λ r. none }

abbrev quiet : World stocks (by_request Entry)
quiet = record {
  deducting = answered;
  recording = answered;
  produced = none;
  rolling_back = answered;
  settling = answered;
}

crash_reconciled_example :
    let (t, _, failed) =
      enqueue_with_ledger stocks (by_request Entry) quiet buy_two (pos 10) (some (pos 1)) books in
    let (u, r) =
      reconcile_entry stocks
        (by_request Entry)
        (ok false)
        answered
        (entry_of buy_two (pos 10))
        (pos 30)
        (pos 99)
        t in
    (failed ≡ some (sentinel simulated_crash))
    × ((by_request Entry).get t.entries "r1" ≡ some (entry_of buy_two (pos 10)))
    × (number_at stocks t.stock (whole (pos 1)) ≡ pos 5 -ℤ pos 2)
    × (r ≡ ok refunded)
    × (number_at stocks u.stock (whole (pos 1)) ≡ pos 5)
    × (open_at stocks (by_request Entry) u "r1" ≡ false)
crash_reconciled_example =
    crash_reconciled stocks (by_request Entry) quiet buy_two (pos 10) 0 books refl refl
      (stocks.get-put_self empty (whole (pos 1)) (pos 5)) (omega int_laws) (omega int_laws) refl
      (pos 30) (pos 99) (omega int_laws)
