-- ===== src/Order/Spec.antt =====
-- What the ways to place an order promise, without tables: a shop has a stock of each product and a
-- list of sales, and a sale is of a new request and of a positive quantity that is in stock.
pub mod Refinement
use text.Mathlib.Text.{◌==◌ as str_eq}
use seckill.Prelude.{
  ◌≡◌, Bool, String, ℤ, ◌+ℤ◌, pos, List, ◌≤ℤ◌, false, ◌∷◌, ◌||◌, if◌then◌else◌, ◌-ℤ◌, eqb_ℤ, ◌≢◌,
  [],
}

pub record Sold : Type 0 where
  pub request_id : String
  pub product_id : ℤ
  pub quantity : ℤ

pub record Shop : Type 0 where
  pub stock : ℤ → ℤ
  pub sales : List Sold

-- whether a request has a sale
unfoldable pub is_sold : String → List Sold → Bool
is_sold r [] = false
is_sold r (x ∷ xs) = str_eq x.request_id r || is_sold r xs

-- the quantity sold of a product
unfoldable pub total : ℤ → List Sold → ℤ
unfolding ◌+ℤ◌
total i [] = pos 0
total i (x ∷ xs) = if eqb_ℤ x.product_id i then x.quantity +ℤ total i xs else total i xs

-- What a call may do to the shop: nothing, or one sale.
pub data Serves (s t : Shop) : Type 0 where
  stays : t ≡ s → Serves s t
  buys :
      (x : Sold)
      → pos 1 ≤ℤ x.quantity
      → x.quantity ≤ℤ s.stock x.product_id
      → is_sold x.request_id s.sales ≡ false
      → t.stock x.product_id ≡ s.stock x.product_id -ℤ x.quantity
      → ((j : ℤ) → j ≢ x.product_id → t.stock j ≡ s.stock j)
      → t.sales ≡ x ∷ s.sales
      → Serves s t

pub data Day : Shop → Shop → Type 0 where
  over : {s : Shop} → Day s s
  next : {s t u : Shop} → Serves s t → Day t u → Day s u
