-- ===== src/Expire/Close/Once.antt =====
-- internal/expire/p2_close.go: however many workers close an order, its stock comes back once.
use seckill.Expire.Close.{set_status, find_by_id, same_status, close_row}
use seckill.Prelude.{
  Option, ℤ, List, pos, ℕ, some, ◌∷◌, ◌≡◌, Bool-cases, if◌then◌else◌, eqb_ℤ, none, inl, inr, [],
  refl, true, false, subst, ap, ◌∙◌,
}
use seckill.Stores.Database.{created, closed, Order, Database}

-- what an order that is not closed or paid still holds
abbrev pub held_by : Option Order → ℤ
held_by none = pos 0
held_by (some o) = if same_status o.status created then o.quantity else pos 0

-- The row has this product and quantity.
abbrev pub IsRow : ℤ → ℤ → Option Order → Type 0
IsRow p q none = ⊥
IsRow p q (some o) = (o.product_id ≡ p) × (o.quantity ≡ q)

-- The UPDATE changes the row that is created, and counts one; or changes no status, and counts none.
pub data Closes (i p q : ℤ) (os os' : List Order) (n : ℕ) : Type 0 where
  closes :
      n ≡ 1
      → held_by (find_by_id os i) ≡ q
      → held_by (find_by_id os' i) ≡ pos 0
      → IsRow p q (find_by_id os' i)
      → Closes i p q os os' n
  leaves : n ≡ 0 → os' ≡ os → held_by (find_by_id os i) ≡ pos 0 → Closes i p q os os' n

found_here :
    (i : ℤ) (o : Order) (os : List Order) → eqb_ℤ o.id i ≡ true → find_by_id (o ∷ os) i ≡ some o
unfolding find_by_id
found_here i o os h = rw h refl

found_later :
    (i : ℤ) (o : Order) (os : List Order)
    → eqb_ℤ o.id i ≡ false
    → find_by_id (o ∷ os) i ≡ find_by_id os i
unfolding find_by_id
found_later i o os h = rw h refl

Closes-cons :
    (i p q : ℤ) (o : Order) (os os' : List Order) (n : ℕ)
    → eqb_ℤ o.id i ≡ false
    → Closes i p q os os' n
    → Closes i p q (o ∷ os) (o ∷ os') n
Closes-cons i p q o os os' n other (closes e a b r) =
    closes e (ap held_by (found_later i o os other) ∙ a)
      (ap held_by (found_later i o os' other) ∙ b) (rw (found_later i o os' other) r)
Closes-cons i p q o os os' n other (leaves e same a) =
    leaves e (ap (λ l. o ∷ l) same) (ap held_by (found_later i o os other) ∙ a)

Closes-head :
    (i p q : ℤ) (o : Order) (os : List Order)
    → eqb_ℤ o.id i ≡ true
    → IsRow p q (some o)
    → let (os', n) = set_status closed i created (o ∷ os) in Closes i p q (o ∷ os) os' n
unfolding set_status
Closes-head i p q o os here (e, f) = elim (Bool-cases (same_status o.status created)) [
  | inl open_ ↦
      let shut : Order = record o { status = closed } in
      rw (here, open_)
        (closes refl (ap held_by (found_here i o os here) ∙ (rw open_ f))
          (ap held_by (found_here i shut os here)) (rw (found_here i shut os here) (e, f)))
  | inr shut ↦
      rw (here, shut) (leaves refl refl (ap held_by (found_here i o os here) ∙ rw shut refl))
]

Closes-later :
    (i p q : ℤ) (o : Order) (os : List Order)
    → eqb_ℤ o.id i ≡ false
    → let (os', n) = set_status closed i created os in
      Closes i p q os os' n
      → let (os', n) = set_status closed i created (o ∷ os) in Closes i p q (o ∷ os) os' n
unfolding set_status
Closes-later i p q o os other c = rw other (Closes-cons i p q o os _ _ other c)

pub set_status-Closes :
    (i p q : ℤ) (os : List Order)
    → IsRow p q (find_by_id os i)
    → let (os', n) = set_status closed i created os in Closes i p q os os' n
unfolding find_by_id
set_status-Closes i p q [] h = absurd h
set_status-Closes i p q (o ∷ os) h = elim (Bool-cases (eqb_ℤ o.id i)) [
  | inl here ↦ Closes-head i p q o os here (subst (IsRow p q) (found_here i o os here) h)
  | inr other ↦
      Closes-later i p q o os other
        (set_status-Closes i p q os (subst (IsRow p q) (found_later i o os other) h))
]

module _ (D : Database) (i p q : ℤ) where
  pub close_row-Closes :
      (d : D.Db)
      → IsRow p q (find_by_id (D.orders d) i)
      → let (d', n) = close_row D i d in Closes i p q (D.orders d) (D.orders d') n
  unfolding close_row
  close_row-Closes d h = rw (D.orders-put_orders d _) (set_status-Closes i p q (D.orders d) h)
