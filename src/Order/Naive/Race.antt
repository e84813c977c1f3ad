-- ===== src/Order/Naive/Race.antt =====
-- internal/order/naive.go: calls of `PlaceOrderNaive` that all read the stock before any of them
-- writes.
use seckill.Order.Effect.{valid_quantity, stored, take_stock-some, stock_at}
use seckill.Errors.{Result, err, ok}
use seckill.Stores.Database.{Database, Product}
use seckill.Prelude.{
  ℤ, ◌+ℤ◌, List, pos, ◌∷◌, ◌≡◌, [], ◌≤ℤ◌, none, some, false, arith, ◌-ℤ◌, int_laws, ap, ◌∙◌, sym,
  subst, eqb_ℤ, ◌<ℤ◌, true, eqb_ℤ_self,
}
use seckill.Order.Statements.{
  Env, PlaceOrderRequest, find_order, select_product, insert_order, new_order, Point, has_id,
  at_select, at_update, at_insert, sold,
}
use seckill.Order.Naive.{place_order_naive, Order, naive_check, naive_write}

-- A call: what it meets, the clock that gives its id, and its request.
pub record Racer : Type 0 where
  pub env : Env
  pub id : ℤ
  pub req : PlaceOrderRequest

-- The pieces that the calls ask for.
unfoldable pub total : List Racer → ℤ
unfolding ◌+ℤ◌
total [] = pos 0
total (c ∷ cs) = c.req.quantity +ℤ total cs

abbrev pub AllOk : List (Result Order) → Type 0
AllOk [] = Unit {0}
AllOk (err e ∷ rest) = ⊥
AllOk (ok o ∷ rest) = AllOk rest

-- The calls ask for at least one piece each of a product, each for no more than is there, and no
-- statement of theirs fails.
abbrev pub Contend : ℤ → ℤ → List Racer → Type 0
Contend i stock [] = Unit {0}
Contend i stock (c ∷ cs) =
    (c.req.product_id ≡ i)
    × (pos 1 ≤ℤ c.req.quantity)
    × (c.req.quantity ≤ℤ stock)
    × ((at : Point) → c.env.down at ≡ none)
    × Contend i stock cs

-- Their ids and request ids are in no row, and differ from each other.
abbrev pub Fresh : List Order → List Racer → Type 0
Fresh os [] = Unit {0}
Fresh os (c ∷ cs) =
    (find_order os c.req.request_id ≡ none)
    × (has_id os c.id ≡ false)
    × Fresh (stored c.id c.env.now c.req ∷ os) cs

sub_sub : (s q t : ℤ) → s -ℤ q -ℤ t ≡ s -ℤ (q +ℤ t)
sub_sub s q t = omega int_laws

sold_next :
    (i : ℤ) (c : Racer) (os : List Order) (t : ℤ)
    → c.req.product_id ≡ i
    → sold (stored c.id c.env.now c.req ∷ os) i +ℤ t ≡ sold os i +ℤ (c.req.quantity +ℤ t)
unfolding sold new_order
sold_next i c os t same =
    let itself : eqb_ℤ c.req.product_id i ≡ true =
      ap (eqb_ℤ c.req.product_id) (sym same) ∙ eqb_ℤ_self c.req.product_id in
    rw itself (omega int_laws)

module _ (D : Database) where
  -- The calls read at one state and write one after the other.
  unfoldable pub race : D.Db → List Racer → D.Db → D.Db × List (Result Order)
  race read [] d = (d, [])
  race read (c ∷ cs) d =
      let (d', a) = place_order_naive D c.env c.id c.req read d in
      let (end, rest) = race read cs d' in (end, a ∷ rest)

  naive_check_passes :
      (env : Env) (req : PlaceOrderRequest) (d : D.Db) {p : Product}
      → D.product d req.product_id ≡ some p
      → pos 1 ≤ℤ req.quantity
      → req.quantity ≤ℤ p.stock
      → env.down at_select ≡ none
      → naive_check D env req d ≡ ok tt
  unfolding naive_check select_product
  naive_check_passes env req d {p} at_i positive covered up =
      rw (valid_quantity req positive, up, select_product, at_i) (ground arith)

  naive_write_effect :
      (env : Env) (id : ℤ) (req : PlaceOrderRequest) (d : D.Db) (p : Product)
      → D.product d req.product_id ≡ some p
      → ((at : Point) → env.down at ≡ none)
      → find_order (D.orders d) req.request_id ≡ none
      → has_id (D.orders d) id ≡ false
      → naive_write D env id req d ≡ (
        D.put_orders
            (D.put_product d req.product_id (record p { stock = p.stock -ℤ req.quantity }))
            (stored id env.now req ∷ D.orders d),
        ok (new_order id req),
      )
  unfolding naive_write insert_order new_order
  naive_write_effect env id req d p at_i up fresh fresh_id =
      let row = record p { stock = p.stock -ℤ req.quantity } in
      let kept = D.orders-put_product d req.product_id row in
      let took = take_stock-some D d req.product_id req.quantity at_i in
      ground (arith, kept, took, up at_update, up at_insert)

  -- One call of the race, from a state that the calls before it have left.
  place_order_naive_effect :
      (env : Env) (id : ℤ) (req : PlaceOrderRequest) (read d : D.Db) (seen p : Product)
      → D.product read req.product_id ≡ some seen
      → D.product d req.product_id ≡ some p
      → pos 1 ≤ℤ req.quantity
      → req.quantity ≤ℤ seen.stock
      → ((at : Point) → env.down at ≡ none)
      → find_order (D.orders d) req.request_id ≡ none
      → has_id (D.orders d) id ≡ false
      → place_order_naive D env id req read d ≡ (
        D.put_orders
            (D.put_product d req.product_id (record p { stock = p.stock -ℤ req.quantity }))
            (stored id env.now req ∷ D.orders d),
        ok (new_order id req),
      )
  unfolding place_order_naive
  place_order_naive_effect env id req read d seen p seen_i at_i positive covered up fresh fresh_id =
      rw (place_order_naive, naive_check_passes env req read seen_i positive covered (up at_select))
        (naive_write_effect env id req d p at_i up fresh fresh_id)

  -- What the race leaves: the stock less all the pieces, and as many sold more.
  pub record Raced (i : ℤ) (cs : List Racer) (p : Product) (d : D.Db)
      (r : D.Db × List (Result Order)) : Type 0 where
    pub answers : AllOk r.1
    pub left : stock_at D r.0 i ≡ p.stock -ℤ total cs
    pub gained : sold (D.orders r.0) i ≡ sold (D.orders d) i +ℤ total cs

  module _ (read : D.Db) (seen : Product) (i : ℤ) (seen_i : D.product read i ≡ some seen) where
    -- Every call of the race is accepted, also when they ask for more together than is there.
    pub race-Raced :
        (cs : List Racer) (d : D.Db) (p : Product)
        → D.product d i ≡ some p
        → Contend i seen.stock cs
        → Fresh (D.orders d) cs
        → Raced i cs p d (race read cs d)
    unfolding race total
    race-Raced [] d p at_i fit fresh = record {
      answers = tt;
      left = rw at_i (omega int_laws);
      gained = omega int_laws;
    }
    race-Raced (c ∷ cs) d p at_i (same, positive, covered, up, fit) (fresh, fresh_id, more) =
        let q = c.req.quantity in
        let row = record p { stock = p.stock -ℤ q } in
        let new = stored c.id c.env.now c.req ∷ D.orders d in
        let d' = D.put_orders (D.put_product d c.req.product_id row) new in
        let seen_c = ap (D.product read) same ∙ seen_i in
        let at_c = ap (D.product d) same ∙ at_i in
        let step =
          place_order_naive_effect c.env c.id c.req read d seen p seen_c at_c positive covered up
            fresh fresh_id in
        let at' : D.product d' i ≡ some row =
          D.product-put_orders (D.put_product d c.req.product_id row) new i
          ∙ ap (D.product (D.put_product d c.req.product_id row)) (sym same)
          ∙ D.product-put_self d c.req.product_id row in
        let rows : D.orders d' ≡ new =
          D.orders-put_orders (D.put_product d c.req.product_id row) new in
        let rest = race-Raced cs d' row at' fit (subst (λ os. Fresh os cs) (sym rows) more) in
        rw step (record {
          answers = rest.answers;
          left = rest.left ∙ sub_sub p.stock q (total cs);
          gained =
              rest.gained
              ∙ ap (λ os. sold os i +ℤ total cs) rows
              ∙ sold_next i c (D.orders d) (total cs) same;
        })

    -- Calls that have all read a stock which covers each of them, but not all of them, and then write
    -- in any order, are all accepted; as much is sold more as they ask for, and the stock ends below
    -- zero.
    pub race_oversells :
        (cs : List Racer)
        → Contend i seen.stock cs
        → Fresh (D.orders read) cs
        → seen.stock <ℤ total cs
        → let r = race read cs read in
          AllOk r.1
          × (sold (D.orders r.0) i ≡ sold (D.orders read) i +ℤ total cs)
          × (stock_at D r.0 i <ℤ pos 0)
    race_oversells cs fit fresh short =
        let r = race-Raced cs read seen seen_i fit fresh in
        (r.answers, r.gained, rw (r.left) (omega int_laws))
