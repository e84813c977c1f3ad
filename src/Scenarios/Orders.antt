-- ===== src/Scenarios/Orders.antt =====
-- The theorems on orders and ids at concrete inputs.
use seckill.Order.Naive.Race.{Racer, total, race, AllOk, race_oversells}
use seckill.Order.Effect.{stored, stock_at}
use seckill.Deduct.Optimistic.Conditional.{
  Conditional, place_order_by_conditional_update-Conditional,
}
use seckill.Scenarios.Memory.{calm, buy_two, tables, ten, ten-phone, Tables, phone}
use seckill.Prelude.{pos, ◌≡◌, refl, ℕ, int_laws, ◌∷◌, [], List, ◌+ℤ◌, ◌<ℤ◌, arith}
use seckill.Deduct.Optimistic.{place_order_by_conditional_update, Attempt}
use seckill.Order.Place.Safety.{Keeps, place_order_tx-Keeps}
use seckill.Order.Place.{place_order_tx}
use seckill.Order.Statements.{new_order, find_order, has_id, sold}
use seckill.Order.Place.Outcome.{Outcome, place_order_tx-Outcome}

abbrev turns : ℕ → Attempt tables
turns n = record { env = calm; snapshot = ten; db = ten }

place_order_tx-Outcome_example :
    let p = place_order_tx tables calm ten buy_two ten in
    Outcome tables calm buy_two ten ten p.0 p.1
place_order_tx-Outcome_example = place_order_tx-Outcome tables calm buy_two ten ten

place_order_tx-Keeps_example :
    Keeps tables calm buy_two ten ten (place_order_tx tables calm ten buy_two ten).0
place_order_tx-Keeps_example = place_order_tx-Keeps tables calm buy_two ten ten

abbrev sold_once : Tables
sold_once = record ten { rows = stored (pos 5) 3 buy_two ∷ [] }

place_order_by_conditional_update-Conditional_example :
    let (d', r) = place_order_by_conditional_update tables calm buy_two ten in
    Conditional tables calm buy_two ten d' r
place_order_by_conditional_update-Conditional_example =
    place_order_by_conditional_update-Conditional tables calm buy_two ten

-- Two buyers of seven pieces each, when there are ten.
abbrev buyers : List Racer
buyers =
    record {
      env = calm;
      id = pos 5;
      req = record { request_id = "r1"; product_id = pos 1; user_id = pos 7; quantity = pos 7 };
    }
    ∷ record {
      env = calm;
      id = pos 6;
      req = record { request_id = "r2"; product_id = pos 1; user_id = pos 8; quantity = pos 7 };
    }
    ∷ []

race_oversells_example :
    let r = race tables ten buyers ten in
    AllOk r.1
    × (sold r.0.rows (pos 1) ≡ sold ten.rows (pos 1) +ℤ total buyers)
    × (stock_at tables r.0 (pos 1) <ℤ pos 0)
unfolding find_order has_id total new_order
race_oversells_example =
    race_oversells tables ten phone (pos 1) ten-phone buyers
      (refl, omega arith, omega arith, λ at. refl, (refl, omega arith, omega arith, λ at. refl, tt))
      (refl, refl, (refl, refl, tt)) (omega int_laws)
