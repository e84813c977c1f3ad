-- ===== src/Order/Effect.antt =====
-- internal/order, internal/deduct, internal/bucket: the effect that every way of placing an order is
-- to have on the tables, and what follows from it.
use seckill.Errors.{ok}
use seckill.Prelude.{
  ℕ, ◌≡◌, ◌≢◌, inl, inr, refl, arith, false, Option, none, some, List, [], ◌∷◌, ℤ, pos, ◌+ℤ◌, ◌-ℤ◌,
  eqb_ℤ, eqb_ℤ-eq, eqb_ℤ_self, int_laws, Bool-cases, ap, ◌∙◌, ◌⊎◌, sym, ltb_ℤ, ◌≤ℤ◌,
}
use seckill.Stores.Database.{Product, Order, Database}
use seckill.Order.Statements.{
  PlaceOrderRequest, find_order, has_id, sold, new_order, take_stock, insert_order,
  validate_request, select_product,
}

-- The row that the INSERT leaves.
abbrev pub stored : ℤ → ℕ → PlaceOrderRequest → Order
stored id now req = record (new_order id req) { created_at = now }

abbrev pub stock_of : Option Product → ℤ
stock_of none = pos 0
stock_of (some p) = p.stock

pub covered_of_test : (stock q : ℤ) → ltb_ℤ stock q ≡ false → q ≤ℤ stock
covered_of_test stock q h = ground arith

pub positive_of_valid :
    (req : PlaceOrderRequest) {u : Unit {0}} → validate_request req ≡ ok u → pos 1 ≤ℤ req.quantity
unfolding validate_request
positive_of_valid req h = ground arith

pub valid_quantity :
    (req : PlaceOrderRequest) → pos 1 ≤ℤ req.quantity → validate_request req ≡ ok tt
unfolding validate_request
valid_quantity req h = ground arith

-- No two rows have one request id.
abbrev pub Unique : List Order → Type 0
Unique [] = Unit {0}
Unique (o ∷ os) = (find_order os o.request_id ≡ none) × Unique os

pub ne_of_test : (i j : ℤ) → eqb_ℤ i j ≡ false → j ≢ i
ne_of_test i j h e = let h' : eqb_ℤ i i ≡ false = rw e at h in cc (h', eqb_ℤ_self i)

module _ (D : Database) where
  abbrev pub stock_at : D.Db → ℤ → ℤ
  stock_at d i = stock_of (D.product d i)

  -- One row more in `orders`, of a new id and a new request id, and its quantity less in the row of
  -- its product; all other products as they were.
  pub record Places (req : PlaceOrderRequest) (d d' : D.Db) (id : ℤ) (now : ℕ) : Type 0 where
    pub row : Product
    pub was : D.product d req.product_id ≡ some row
    pub taken : stock_at d' req.product_id ≡ row.stock -ℤ req.quantity
    pub others : (j : ℤ) → j ≢ req.product_id → D.product d' j ≡ D.product d j
    pub appended : D.orders d' ≡ stored id now req ∷ D.orders d
    pub fresh : find_order (D.orders d) req.request_id ≡ none
    pub fresh_id : has_id (D.orders d) id ≡ false

  module _ {req : PlaceOrderRequest} {d d' : D.Db} {id : ℤ} {now : ℕ}
      (e : Places req d d' id now) where
    -- What is in stock and what is sold add up as before, for every product.
    pub Places-conserves :
        (i : ℤ) → stock_at d' i +ℤ sold (D.orders d') i ≡ stock_at d i +ℤ sold (D.orders d) i
    unfolding new_order sold
    Places-conserves i = elim (Bool-cases (eqb_ℤ req.product_id i)) [
      | inl same ↦
          let at_i = eqb_ℤ-eq req.product_id i same in
          let now_i = rw at_i at e.taken in
          let was_i = ap stock_of (rw at_i at e.was) in
          rw (e.appended, same, now_i, was_i) (omega int_laws)
      | inr other ↦
          rw (e.appended, other)
            (ap (λ p. stock_of p +ℤ sold (D.orders d) i)
              (e.others i (ne_of_test req.product_id i other)))
    ]

    pub Places-Unique : Unique (D.orders d) → Unique (D.orders d')
    unfolding new_order
    Places-Unique u = rw e.appended (e.fresh, u)

  -- The stock of one product falls by the quantity, and no other changes.
  pub Places-stock :
      {req : PlaceOrderRequest} {d d' : D.Db} {id : ℤ} {now : ℕ} (e : Places req d d' id now)
      (i : ℤ)
      → ((i ≡ req.product_id) × (stock_at d' i ≡ stock_at d i -ℤ req.quantity))
        ⊎ (stock_at d' i ≡ stock_at d i)
  Places-stock {req} e i = elim (Bool-cases (eqb_ℤ req.product_id i)) [
    | inl same ↦
        let at_i = eqb_ℤ-eq req.product_id i same in
        inl (
          sym at_i,
          rw at_i at e.taken ∙ ap (λ x. x -ℤ req.quantity) (sym (ap stock_of (rw at_i at e.was))),
        )
    | inr other ↦ inr (ap stock_of (e.others i (ne_of_test req.product_id i other)))
  ]

  pub select_product-ok :
      (d : D.Db) (i : ℤ) {p : Product} → select_product D d i ≡ ok p → D.product d i ≡ some p
  unfolding select_product
  select_product-ok d i h = ground arith

  -- An INSERT that went through.
  pub insert_order-some :
      (d : D.Db) (req : PlaceOrderRequest) (id : ℤ) (now : ℕ) {d' : D.Db}
      → insert_order D d (new_order id req) now ≡ some d'
      → (find_order (D.orders d) req.request_id ≡ none)
        × (has_id (D.orders d) id ≡ false)
        × (D.put_orders d (stored id now req ∷ D.orders d) ≡ d')
  unfolding insert_order new_order
  insert_order-some d req id now e = ground arith

  pub take_stock-some :
      (d : D.Db) (i q : ℤ) {p : Product}
      → D.product d i ≡ some p
      → take_stock D d i q ≡ D.put_product d i (record p { stock = p.stock -ℤ q })
  unfolding take_stock
  take_stock-some d i q e = rw (e, take_stock) refl

  module _ (d : D.Db) (req : PlaceOrderRequest) (id : ℤ) (now : ℕ) {p : Product} {d' : D.Db}
      (was : D.product d req.product_id ≡ some p) where
    -- the INSERT and then the UPDATE
    pub insert_take-Places :
        insert_order D d (new_order id req) now ≡ some d'
        → Places req d (take_stock D d' req.product_id req.quantity) id now
    insert_take-Places e =
        let (fresh, fresh_id, eq) = insert_order-some d req id now e in
        let same : (j : ℤ) → D.product d' j ≡ D.product d j =
          λ j. rw (← eq) (D.product-put_orders d (stored id now req ∷ D.orders d) j) in
        let took = take_stock-some d' req.product_id req.quantity (same req.product_id ∙ was) in
        record {
          row = p;
          was = was;
          taken = rw took (ap stock_of (D.product-put_self d' req.product_id _));
          others = λ j ne. rw took (D.product-put_ne d' j req.product_id _ ne ∙ same j);
          appended =
              rw took
                (D.orders-put_product d' req.product_id _ ∙ rw (← eq) (D.orders-put_orders d _));
          fresh = fresh;
          fresh_id = fresh_id;
        }

    -- the UPDATE, which may raise the version too, and then the INSERT
    pub update_insert-Places :
        (row : Product)
        → row.stock ≡ p.stock -ℤ req.quantity
        → insert_order D (D.put_product d req.product_id row) (new_order id req) now ≡ some d'
        → Places req d d' id now
    update_insert-Places row taken e =
        let (fresh, fresh_id, eq) =
          insert_order-some (D.put_product d req.product_id row) req id now e in
        let os = D.orders-put_product d req.product_id row in
        record {
          row = p;
          was = was;
          taken = rw (← eq) (
              ap stock_of (D.product-put_orders _ _ _ ∙ D.product-put_self d req.product_id row)
              ∙ taken);
          others = λ j ne.
              rw (← eq) (D.product-put_orders _ _ j ∙ D.product-put_ne d j req.product_id row ne);
          appended = rw (← eq) (D.orders-put_orders _ _ ∙ ap (λ l. stored id now req ∷ l) os);
          fresh = rw os at fresh;
          fresh_id = rw os at fresh_id;
        }
