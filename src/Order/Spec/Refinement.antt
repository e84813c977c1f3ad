-- ===== src/Order/Spec/Refinement.antt =====
-- internal/order/order.go and internal/deduct/optimistic.go: every run of `PlaceOrderTx` and
-- `PlaceOrderByConditionalUpdate` on the same tables is a day of the shop.
use seckill.Deduct.Optimistic.Conditional.{
  place_order_by_conditional_update-Conditional, Conditional,
}
use seckill.Errors.{Result}
use seckill.Order.Place.Outcome.{place_order_tx-Outcome, Sale, Outcome}
use seckill.Deduct.Optimistic.{place_order_by_conditional_update}
use seckill.Order.Place.{place_order_tx}
use seckill.Order.Effect.{stock_at, stock_of, ne_of_test}
use seckill.Prelude.{
  List, ℤ, String, ◌∷◌, map, pos, ◌+ℤ◌, ◌≡◌, [], none, ◌≤ℤ◌, Bool-cases, ◌∙◌, ap, false, eqb_ℤ,
  arith, refl, inl, ◌-ℤ◌, eqb_ℤ-eq, sym, int_laws, subst, inr,
}
use seckill.Order.Statements.{find_order, new_order, Env, PlaceOrderRequest}
use seckill.Stores.Database.{Order, Database}
use seckill.Order.Spec.{total, Shop, Serves, Day, Sold, is_sold, over, next, stays, buys}

Serves-total :
    {s t : Shop}
    → Serves s t
    → (i : ℤ) → t.stock i +ℤ total i t.sales ≡ s.stock i +ℤ total i s.sales
unfolding total
Serves-total (stays e) i = rw e refl
Serves-total {s} {t} (buys x p c f here others more) i = elim (Bool-cases (eqb_ℤ x.product_id i)) [
  | inl same ↦
      let at_i = eqb_ℤ-eq x.product_id i same in
      let less : t.stock i ≡ s.stock i -ℤ x.quantity = rw at_i at here in
      rw (more, same, less) (omega int_laws)
  | inr other ↦
      rw (more, other) (ap (λ n. n +ℤ total i s.sales) (others i (ne_of_test x.product_id i other)))
]

Serves-nonneg :
    {s t : Shop} → Serves s t → ((i : ℤ) → pos 0 ≤ℤ s.stock i) → (i : ℤ) → pos 0 ≤ℤ t.stock i
Serves-nonneg (stays e) h i = rw e (h i)
Serves-nonneg {s} {t} (buys x p c f here others more) h i =
    elim (Bool-cases (eqb_ℤ x.product_id i)) [
      | inl same ↦
          let at_i = eqb_ℤ-eq x.product_id i same in
          subst (λ j. pos 0 ≤ℤ t.stock j) at_i (rw here (omega int_laws))
      | inr other ↦ rw (others i (ne_of_test x.product_id i other)) (h i)
    ]

-- In a day that begins with no negative stock, no stock becomes negative, and of every product no more is
-- sold than there was.
pub Day-safe :
    {s t : Shop}
    → Day s t
    → ((i : ℤ) → pos 0 ≤ℤ s.stock i)
    → (i : ℤ) → (pos 0 ≤ℤ t.stock i) × (t.stock i +ℤ total i t.sales ≡ s.stock i +ℤ total i s.sales)
Day-safe over h i = (h i, refl)
Day-safe (next v day) h i =
    let (nonneg, eq) = Day-safe day (Serves-nonneg v h) i in (nonneg, eq ∙ Serves-total v i)

-- An order as a sale.
unfoldable pub sale_of : Order → Sold
sale_of o = record { request_id = o.request_id; product_id = o.product_id; quantity = o.quantity }

is_sold-map :
    (os : List Order) (r : String) → find_order os r ≡ none → is_sold r (map sale_of os) ≡ false
unfolding find_order is_sold sale_of
is_sold-map [] r h = refl
is_sold-map (o ∷ os) r h = ground (arith, is_sold-map os r)

module _ (D : Database) where
  -- What the tables say of the shop.
  abbrev pub view : D.Db → Shop
  view d = record { stock = λ i. stock_at D d i; sales = map sale_of (D.orders d) }

  Sale-Serves :
      (env : Env) (req : PlaceOrderRequest) (d d' : D.Db) (o : Order)
      → Sale D env req d d' o
      → Serves (view d) (view d')
  unfolding sale_of new_order
  Sale-Serves env req d d' o s =
      let e = s.effect in
      buys
        record { request_id = req.request_id; product_id = req.product_id; quantity = req.quantity }
        s.positive s.covered (is_sold-map (D.orders d) req.request_id e.fresh)
        (e.taken ∙ ap (λ p. stock_of p -ℤ req.quantity) (sym e.was))
        (λ j ne. ap stock_of (e.others j ne)) (ap (map sale_of) e.appended)

  -- A call of one of the two ways, with the driver's behaviour and, for the first, the snapshot of its
  -- transaction.
  pub data Call : Type 0 where
    by_lock : Env → D.Db → PlaceOrderRequest → Call
    by_condition : Env → PlaceOrderRequest → Call

  unfoldable pub serve : Call → D.Db → D.Db
  unfolding place_order_tx place_order_by_conditional_update
  serve (by_lock env snapshot req) d = (place_order_tx D env snapshot req d).0
  serve (by_condition env req) d = (place_order_by_conditional_update D env req d).0

  unfoldable pub serve_all : List Call → D.Db → D.Db
  unfolding serve
  serve_all [] d = d
  serve_all (c ∷ cs) d = serve_all cs (serve c d)

  Outcome-Serves :
      (env : Env) (req : PlaceOrderRequest) (snapshot d d' : D.Db) (r : Result Order)
      → Outcome D env req snapshot d d' r
      → Serves (view d) (view d')
  Outcome-Serves env req snapshot d d' r (Outcome.fails e f s) = stays (ap view s)
  Outcome-Serves env req snapshot d d' r (Outcome.replays o f s w) = stays (ap view s)
  Outcome-Serves env req snapshot d d' r (Outcome.sells o f s) = Sale-Serves env req d d' o s
  Outcome-Serves env req snapshot d d' r (Outcome.sells_unseen o e f l s) =
      Sale-Serves env req d d' o s

  Conditional-Serves :
      (env : Env) (req : PlaceOrderRequest) (d d' : D.Db) (r : Result Order)
      → Conditional D env req d d' r
      → Serves (view d) (view d')
  Conditional-Serves env req d d' r (Conditional.fails e f s) = stays (ap view s)
  Conditional-Serves env req d d' r (Conditional.sells o f s) = Sale-Serves env req d d' o s
  Conditional-Serves env req d d' r (Conditional.sells_unseen o e f s) =
      Sale-Serves env req d d' o s

  serve-Serves : (c : Call) (d : D.Db) → Serves (view d) (view (serve c d))
  unfolding serve
  serve-Serves (by_lock env snapshot req) d =
      Outcome-Serves env req snapshot d _ _ (place_order_tx-Outcome D env req snapshot d)
  serve-Serves (by_condition env req) d =
      Conditional-Serves env req d _ _ (place_order_by_conditional_update-Conditional D env req d)

  -- Any calls of `PlaceOrderTx` and `PlaceOrderByConditionalUpdate`, one after the other on the same
  -- tables, whatever their snapshots and whatever fails: what the tables say of the shop goes through a day
  -- of sales, each of a new request and a positive quantity in stock.
  pub serve_all-Day : (cs : List Call) (d : D.Db) → Day (view d) (view (serve_all cs d))
  unfolding serve_all
  serve_all-Day [] d = over
  serve_all-Day (c ∷ cs) d = next (serve-Serves c d) (serve_all-Day cs (serve c d))

  -- So, from tables with no negative stock, such calls leave none, and what they sold and what is left of
  -- each product is what there was.
  pub serve_all_safe :
      (cs : List Call) (d : D.Db)
      → ((i : ℤ) → pos 0 ≤ℤ stock_at D d i)
      → (i : ℤ)
      → (pos 0 ≤ℤ stock_at D (serve_all cs d) i)
        × (stock_at D (serve_all cs d) i +ℤ total i (map sale_of (D.orders (serve_all cs d)))
            ≡ stock_at D d i +ℤ total i (map sale_of (D.orders d)))
  serve_all_safe cs d h i = Day-safe (serve_all-Day cs d) h i
