-- ===== src/Inventory/Held.antt =====
-- internal/inventory/reservation.go: the entry that a reservation leaves, and the one that a restoring
-- leaves.
use seckill.Stores.Call.{Fate, answered, not_made, answer_lost, call}
use seckill.Errors.{ok, ◌>>=◌, Error}
use seckill.Deduct.Stock.{StockKey, whole}
use seckill.Stores.Keyspace.{Keyspace}
use seckill.Prelude.{
  String, ℤ, ◌≡◌, ◌≢◌, some, none, Option, Option-cases, Bool-cases, inl, inr, ltb_ℤ, refl, ◌∙◌,
  arith, false, ap, eqb_ℤ-eq,
}
use seckill.Inventory.Ledger.{
  Entry, State, ReservationRequest, Reservation, ReservationState, reserved, restored, reserve,
  restore, reserve_stock, reserve_entry, reserve_found, reserve_script, read_reserve, differs,
  malformed, restore_found, restore_script, restore_entry,
}

-- the entry of a request in a state
abbrev pub entry_in : ReservationState → ReservationRequest → Entry
entry_in st req = record { state = st; product = req.product_id; quantity = req.quantity }

same_as :
    (st : ReservationState) (e : Entry) (req : ReservationRequest)
    → e.state ≡ st
    → differs e req ≡ false
    → e ≡ entry_in st req
unfolding differs
same_as st e req h d =
    let p = eqb_ℤ-eq e.product req.product_id (ground arith) in
    let q = eqb_ℤ-eq e.quantity req.quantity (ground arith) in
    λ i. record { state = h i; product = p i; quantity = q i }

differs_self :
    (st : ReservationState) (req : ReservationRequest) → differs (entry_in st req) req ≡ false
unfolding differs
differs_self st req = ground arith

module _ (R : Keyspace StockKey ℤ) (L : Keyspace String Entry) (req : ReservationRequest) where
  -- What the script answers as a success, and the entry that it leaves.
  abbrev Stands : State R L × (ℤ × ℤ) → Type 0
  Stands (t, answer) =
      (a : Reservation)
      → read_reserve R L req answer ≡ ok a
      → L.get t.entries req.request_id ≡ some (entry_in reserved req)

  reserve_stock-Stands : (s : State R L) → Stands (reserve_stock R L req s)
  unfolding reserve_stock read_reserve
  reserve_stock-Stands s = elim (Option-cases (R.get s.stock (whole req.product_id))) [
    | inl missing ↦ rw (missing, reserve_stock) (λ a h. cc)
    | inr (n, there) ↦ elim (Bool-cases (ltb_ℤ n req.quantity)) [
      | inl short ↦ rw (there, short, reserve_stock) (λ a h. cc)
      | inr enough ↦
          rw (there, enough, reserve_stock)
            (λ a h. L.get-put_self s.entries req.request_id (entry_in reserved req))
    ]
  ]

  reserve_entry-Stands :
      (s : State R L) (e : Entry) (st : ReservationState)
      → L.get s.entries req.request_id ≡ some e
      → e.state ≡ st
      → differs e req ≡ false
      → Stands (reserve_entry R L req s e)
  unfolding reserve_entry
  reserve_entry-Stands s e reserved there h same =
      rw (same, h) (λ a g. there ∙ ap some (same_as reserved e req h same))
  reserve_entry-Stands s e restored there h same = rw (same, h) (reserve_stock-Stands s)

  reserve_found-Stands :
      (s : State R L) (o : Option Entry)
      → L.get s.entries req.request_id ≡ o
      → Stands (reserve_found R L req s o)
  unfolding reserve_found
  reserve_found-Stands s none h = reserve_stock-Stands s
  reserve_found-Stands s (some e) h = elim (Bool-cases (differs e req)) [
    | inl other ↦ unfold reserve_entry in rw other (λ a g. unfold read_reserve in cc)
    | inr same ↦ reserve_entry-Stands s e e.state h refl same
  ]

  -- A reservation that is granted is in the ledger.
  pub reserve-holds :
      (fate : Fate) (s : State R L) (a : Reservation)
      → (reserve R L fate req s).1 ≡ ok a
      → L.get (reserve R L fate req s).0.entries req.request_id ≡ some (entry_in reserved req)
  unfolding reserve call reserve_script
  reserve-holds fate s a h = elim (Bool-cases (malformed req)) [
    | inl bad ↦ absurd (ground (arith, bad, h))
    | inr fine ↦ rw (reserve, fine) (by_fate fate (ground (arith, fine, h)))
  ]
    where
      by_fate :
          (fate : Fate)
          → ((call fate (reserve_script R L req) s).1 >>= read_reserve R L req) ≡ ok a
          → L.get (call fate (reserve_script R L req) s).0.entries req.request_id
            ≡ some (entry_in reserved req)
      by_fate answered g = reserve_found-Stands s (L.get s.entries req.request_id) refl a g
      by_fate (not_made e) g = cc
      by_fate (answer_lost e) g = cc

  -- A restoring whose script runs marks the entry of a granted reservation as restored.
  pub restore-releases :
      (fate : Fate) (s : State R L)
      → ((e : Error) → fate ≢ not_made e)
      → L.get s.entries req.request_id ≡ some (entry_in reserved req)
      → L.get (restore R L fate req s).0.entries req.request_id ≡ some (entry_in restored req)
  unfolding restore call restore_script restore_found restore_entry
  restore-releases answered s made there =
      rw (there, differs_self reserved req) (L.get-put_self s.entries req.request_id _)
  restore-releases (not_made e) s made there = absurd (made e refl)
  restore-releases (answer_lost e) s made there =
      rw (there, differs_self reserved req) (L.get-put_self s.entries req.request_id _)
