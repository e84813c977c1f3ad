-- ===== src/OrderService/Placed.antt =====
-- cmd/order-service/main.go and internal/asyncorder: what the service has done when it answers.
use seckill.Errors.{Result, ok, err, Error}
use seckill.Stores.Call.{Fate, call, not_made, answer_lost, answered}
use seckill.Inventory.Held.{entry_in, reserve-holds, restore-releases}
use seckill.Prelude.{◌≢◌, ◌⊎◌, inl, inr, ap, sym, ℤ, String, ℕ, List, ◌≡◌, ◌∙◌, none, ◌∷◌, some}
use seckill.Deduct.Stock.{StockKey}
use seckill.Stores.Keyspace.{Keyspace}
use mathlib.Core.Path.{refl}
use seckill.Ports
use seckill.Inventory.Ledger.{
  Entry, State, Reservation, reserve, ReservationState, restored, reserved as reserved_state,
}
use seckill.Inventory.AsyncOrder.{after_reserve}
use seckill.Inventory.AsyncOrder.Balance.{after_reserve-accounted}
use seckill.Inventory.Safety.{accounted, reserve-accounted}
use seckill.Mq.Enqueue.{OrderCreated}
use seckill.OrderService.{
  World, place_and_produce, reserved, compensated, order_message, reservation_of, produce,
}

module _ (R : Keyspace StockKey ℤ) (L : Keyspace String Entry) where
  -- The entry that the ledger has for a request, if it is in a state.
  abbrev pub Stands : ReservationState → Ports.PlaceOrderRequest → World R L → Type 0
  Stands st req v = L.get v.store.entries req.request_id ≡ some (entry_in st (reservation_of req))

  -- The order is accepted: its reservation stands and its message is the latest. Or the reservation is
  -- refused: its error is returned, and nothing is done after it. Or it was granted and the message was
  -- not accepted: an error is returned, there is no message, or there is one of which only the answer
  -- was lost, and the reservation is marked as restored if the call for it reaches the store.
  pub data Produces (take published undo : Fate) (req : Ports.PlaceOrderRequest) (at : ℕ)
      (w v : World R L) (r : Result Ports.AcceptedOrder) : Type 0 where
    accepts :
        (a : Ports.AcceptedOrder)
        → r ≡ ok a
        → a.request_id ≡ req.request_id
        → v.messages ≡ order_message req at ∷ w.messages
        → Stands reserved_state req v
        → Produces take published undo req at w v r
    refuses :
        (e : Error)
        → r ≡ err e
        → (reserve R L take (reservation_of req) w.store).1 ≡ err e
        → v.store ≡ (reserve R L take (reservation_of req) w.store).0
        → v.messages ≡ w.messages
        → Produces take published undo req at w v r
    gives_back :
        (e f : Error)
        → r ≡ err e
        → ((published ≡ not_made f) × (v.messages ≡ w.messages))
          ⊎ ((published ≡ answer_lost f) × (v.messages ≡ order_message req at ∷ w.messages))
        → (((x : Error) → undo ≢ not_made x) → Stands restored req v)
        → Produces take published undo req at w v r

  reserved-Produces :
      (take published undo : Fate) (req : Ports.PlaceOrderRequest) (at : ℕ) (w : World R L)
      (s : State R L) (r : Result Reservation)
      → (reserve R L take (reservation_of req) w.store) ≡ (s, r)
      → ((a : Reservation)
          → r ≡ ok a
          → L.get s.entries req.request_id ≡ some (entry_in reserved_state (reservation_of req)))
      → let (v, a) = reserved R L published undo req at w.messages (s, r) in
        Produces take published undo req at w v a
  unfolding reserved compensated after_reserve produce call
  reserved-Produces take published undo req at w s (err e) same h =
      refuses e refl (ap (λ p. p.1) same) (sym (ap (λ p. p.0) same)) refl
  reserved-Produces take answered undo req at w s (ok a) same h =
      accepts _ refl refl refl (h a refl)
  reserved-Produces take (not_made e) undo req at w s (ok a) same h =
      gives_back _ e refl (inl (refl, refl))
        (λ made. restore-releases R L (reservation_of req) undo s made (h a refl))
  reserved-Produces take (answer_lost e) undo req at w s (ok a) same h =
      gives_back _ e refl (inr (refl, refl))
        (λ made. restore-releases R L (reservation_of req) undo s made (h a refl))

  reserved-accounted :
      (published undo : Fate) (req : Ports.PlaceOrderRequest) (at : ℕ) (q : List OrderCreated)
      (s : State R L) (r : Result Reservation)
      → accounted R L (reservation_of req) (reserved R L published undo req at q (s, r)).0.store
        ≡ accounted R L (reservation_of req) s
  unfolding reserved compensated produce call
  reserved-accounted published undo req at q s (err e) = refl
  reserved-accounted answered undo req at q s (ok a) =
      after_reserve-accounted R L none undo (reservation_of req) s (ok a)
  reserved-accounted (not_made e) undo req at q s (ok a) =
      after_reserve-accounted R L (some e) undo (reservation_of req) s (ok a)
  reserved-accounted (answer_lost e) undo req at q s (ok a) =
      after_reserve-accounted R L (some e) undo (reservation_of req) s (ok a)

  -- `PlaceOrderAsync` of the order service, whichever calls fail: an accepted order has its message in
  -- the broker and its reservation stands, of its product and quantity; an order whose reservation is
  -- refused returns that error and does nothing more; an order whose message is not accepted is refused,
  -- has no message unless only the broker's answer was lost, and its reservation is marked as restored
  -- if the call for it reaches the store; and the stock and what the request holds add up as before.
  pub place_and_produce-Produces :
      (take published undo : Fate) (req : Ports.PlaceOrderRequest) (at : ℕ) (w : World R L)
      → let (v, r) = place_and_produce R L take published undo req at w in
        Produces take published undo req at w v r
        × (accounted R L (reservation_of req) v.store ≡ accounted R L (reservation_of req) w.store)
  unfolding place_and_produce
  place_and_produce-Produces take published undo req at w =
      let (s, r) = reserve R L take (reservation_of req) w.store in
      (
        reserved-Produces take published undo req at w s r refl
            (reserve-holds R L (reservation_of req) take w.store),
        reserved-accounted published undo req at w.messages s r
            ∙ reserve-accounted R L take (reservation_of req) w.store,
      )
