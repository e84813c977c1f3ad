-- ===== src/Inventory/Safety.antt =====
-- internal/inventory/reservation.go: whatever is retried, a request id holds its quantity once.
use seckill.Prelude.{◌∷◌, eqb_ℤ-eq, arith, sym, ◌-ℤ◌, ap}
use seckill.Stores.Call.{call, Fate, not_made, answer_lost, answered}
use seckill.Inventory.Ledger.{
  Entry, ReservationRequest, State, reserve_stock, reserved, differs, reserve_script,
  restore_script, reserve, restore, restored, reserve_entry, restore_entry, malformed,
  ReservationState, reserve_found, restore_found,
}
use seckill.Prelude.{
  ℤ, String, Option, pos, some, ◌+ℤ◌, ◌≡◌, none, Option-cases, inl, inr, Bool-cases, ltb_ℤ,
  int_laws, refl, List, false, ◌∙◌, [],
}
use seckill.Deduct.Stock.{StockKey, whole}
use seckill.Stores.Keyspace.{Keyspace, number_at}

module _ (R : Keyspace StockKey ℤ) (L : Keyspace String Entry) where
  -- what an entry holds of the stock
  abbrev held : Option Entry → ℤ
  held none = pos 0
  held (some e) = elim e.state [ reserved ↦ e.quantity | restored ↦ pos 0 ]

  -- What is left of the product, and what the request id holds.
  abbrev pub accounted : ReservationRequest → State R L → ℤ
  accounted req s =
      number_at R s.stock (whole req.product_id) +ℤ held (L.get s.entries req.request_id)

  plus_zero : (a q : ℤ) → a +ℤ q +ℤ pos 0 ≡ a +ℤ q
  plus_zero a q = omega int_laws

  minus_plus : (a q : ℤ) → a -ℤ q +ℤ q ≡ a +ℤ pos 0
  minus_plus a q = omega int_laws

  given_back : (a q h total : ℤ) → a +ℤ h ≡ total → h ≡ q → a +ℤ q +ℤ pos 0 ≡ total
  given_back a q h total e f = plus_zero a q ∙ ap (λ x. a +ℤ x) (sym f) ∙ e

  taken_by : (a q h total : ℤ) → a +ℤ h ≡ total → h ≡ pos 0 → a -ℤ q +ℤ q ≡ total
  taken_by a q h total e f = minus_plus a q ∙ ap (λ x. a +ℤ x) (sym f) ∙ e

  reserve_stock-accounted :
      (req : ReservationRequest) (s : State R L) (total : ℤ)
      → accounted req s ≡ total
      → held (L.get s.entries req.request_id) ≡ pos 0
      → accounted req (reserve_stock R L req s).0 ≡ total
  unfolding reserve_stock
  reserve_stock-accounted req s total eq h =
      elim (Option-cases (R.get s.stock (whole req.product_id))) [
        | inl missing ↦ rw (missing, reserve_stock) eq
        | inr (n, there) ↦ elim (Bool-cases (ltb_ℤ n req.quantity)) [
          | inl short ↦ rw (there, short, reserve_stock) eq
          | inr enough ↦
              rw (there, enough, reserve_stock)
                (rw
                  (
                    R.get-put_self s.stock (whole req.product_id) _,
                    L.get-put_self s.entries req.request_id _,
                  )
                  (taken_by (number_at R s.stock (whole req.product_id)) req.quantity _ total eq h))
        ]
      ]

  same_entry :
      (e : Entry) (req : ReservationRequest) → differs e req ≡ false → e.quantity ≡ req.quantity
  unfolding differs
  same_entry e req h = eqb_ℤ-eq e.quantity req.quantity (ground arith)

  held_at :
      (req : ReservationRequest) (s : State R L) (e : Entry) (st : ReservationState)
      → L.get s.entries req.request_id ≡ some e
      → e.state ≡ st
      → held (L.get s.entries req.request_id) ≡ held (some (record e { state = st }))
  held_at req s e reserved there h = rw there (rw h refl)
  held_at req s e restored there h = rw there (rw h refl)

  module _ (req : ReservationRequest) (s : State R L) (total : ℤ)
      (eq : accounted req s ≡ total) where
    reserve_entry-accounted :
        (e : Entry) (st : ReservationState)
        → L.get s.entries req.request_id ≡ some e
        → e.state ≡ st
        → differs e req ≡ false
        → accounted req (reserve_entry R L req s e).0 ≡ total
    unfolding reserve_entry
    reserve_entry-accounted e reserved there h same = rw (same, h) eq
    reserve_entry-accounted e restored there h same =
        rw (same, h) (reserve_stock-accounted req s total eq (held_at req s e restored there h))

    restore_entry-accounted :
        (e : Entry) (st : ReservationState)
        → L.get s.entries req.request_id ≡ some e
        → e.state ≡ st
        → differs e req ≡ false
        → accounted req (restore_entry R L req s e).0 ≡ total
    unfolding restore_entry
    restore_entry-accounted e restored there h same = rw (same, h) eq
    restore_entry-accounted e reserved there h same =
        let was = held_at req s e reserved there h in
        let q = same_entry e req same in
        rw (same, h)
          (rw
            (
              R.get-put_self s.stock (whole req.product_id) _,
              L.get-put_self s.entries req.request_id _,
            )
            (given_back (number_at R s.stock (whole req.product_id)) req.quantity _ total eq
              (was ∙ q)))

    reserve_found-accounted :
        (o : Option Entry)
        → L.get s.entries req.request_id ≡ o
        → accounted req (reserve_found R L req s o).0 ≡ total
    unfolding reserve_found reserve_entry
    reserve_found-accounted none h = reserve_stock-accounted req s total eq (rw h refl)
    reserve_found-accounted (some e) h = elim (Bool-cases (differs e req)) [
      | inl other ↦ rw other eq
      | inr same ↦ reserve_entry-accounted e e.state h refl same
    ]

    restore_found-accounted :
        (o : Option Entry)
        → L.get s.entries req.request_id ≡ o
        → accounted req (restore_found R L req s o).0 ≡ total
    unfolding restore_found restore_entry
    restore_found-accounted none h = eq
    restore_found-accounted (some e) h = elim (Bool-cases (differs e req)) [
      | inl other ↦ rw other eq
      | inr same ↦ restore_entry-accounted e e.state h refl same
    ]

  reserve_script-accounted :
      (req : ReservationRequest) (s : State R L)
      → accounted req (reserve_script R L req s).0 ≡ accounted req s
  unfolding reserve_script
  reserve_script-accounted req s = reserve_found-accounted req s (accounted req s) refl _ refl

  restore_script-accounted :
      (req : ReservationRequest) (s : State R L)
      → accounted req (restore_script R L req s).0 ≡ accounted req s
  unfolding restore_script
  restore_script-accounted req s = restore_found-accounted req s (accounted req s) refl _ refl

  call-accounted :
      {A : Type 0} (f : State R L → State R L × A) (fate : Fate) (req : ReservationRequest)
      (s : State R L)
      → accounted req (f s).0 ≡ accounted req s
      → accounted req (call fate f s).0 ≡ accounted req s
  unfolding call
  call-accounted f answered req s h = h
  call-accounted f (not_made e) req s h = refl
  call-accounted f (answer_lost e) req s h = h

  pub reserve-accounted :
      (fate : Fate) (req : ReservationRequest) (s : State R L)
      → accounted req (reserve R L fate req s).0 ≡ accounted req s
  unfolding reserve
  reserve-accounted fate req s = elim (Bool-cases (malformed req)) [
    | inl bad ↦ rw (bad, reserve) refl
    | inr good ↦
        rw (good, reserve)
          (call-accounted (reserve_script R L req) fate req s (reserve_script-accounted req s))
  ]

  pub restore-accounted :
      (fate : Fate) (req : ReservationRequest) (s : State R L)
      → accounted req (restore R L fate req s).0 ≡ accounted req s
  unfolding restore
  restore-accounted fate req s =
      call-accounted (restore_script R L req) fate req s (restore_script-accounted req s)

  -- A call of the service for one request.
  pub data Ask : Type 0 where
    reserves restores : Fate → Ask

  unfoldable pub ask_all : ReservationRequest → List Ask → State R L → State R L
  unfolding reserve restore
  ask_all req [] s = s
  ask_all req (reserves fate ∷ asks) s = ask_all req asks (reserve R L fate req s).0
  ask_all req (restores fate ∷ asks) s = ask_all req asks (restore R L fate req s).0

  -- Whatever calls of `Reserve` and `Restore` are made for one request, in any order, repeated, and
  -- with any answers lost: what is left of the product and what the request holds add up to the
  -- same, so that the request holds its quantity at most once and gives it back at most once.
  pub ask_all-accounted :
      (req : ReservationRequest) (asks : List Ask) (s : State R L)
      → accounted req (ask_all req asks s) ≡ accounted req s
  unfolding ask_all
  ask_all-accounted req [] s = refl
  ask_all-accounted req (reserves fate ∷ asks) s =
      ask_all-accounted req asks _ ∙ reserve-accounted fate req s
  ask_all-accounted req (restores fate ∷ asks) s =
      ask_all-accounted req asks _ ∙ restore-accounted fate req s
