-- ===== src/Expire/Close/Attempts.antt =====
-- internal/expire/p2_close.go: however many workers close an order, its stock comes back once.
-- One attempt of a worker: what it read of the order, what its calls of the database meet, and the
-- fate of the script that gives the stock back.
use seckill.Errors.{Result, Error, ok, err}
use seckill.Expire.Close.Once.{IsRow, Closes, closes, leaves, held_by, close_row-Closes}
use seckill.Prelude.{
  ℤ, List, Option, ℕ, ◌≢◌, ◌∷◌, ◌⊎◌, ◌≡◌, [], none, some, ◌+ℤ◌, inl, inr, ap, pos, refl, int_laws,
  ◌≤ℤ◌, ◌∙◌, arith, sym,
}
use seckill.Deduct.Stock.{StockKey, rollback_pre_deduct, whole}
use seckill.Stores.Call.{Fate, answered, answer_lost, not_made, call}
use seckill.Stores.Keyspace.{Keyspace, number_at, number}
use seckill.Expire.Close.{
  Meets, restore_closed_stock, close_created_order, close_row, close_answer, find_by_id,
  CloseResult, close_found,
}
use seckill.Stores.Database.{Database, Order}

pub record Attempt (D : Database) : Type 0 where
  pub seen : D.Db
  pub meets : Meets
  pub restoring : Fate

positive_ne : (n : ℤ) → pos 1 ≤ℤ n → n ≡ pos 0 → ⊥
positive_ne n h e = ground arith

module _ (D : Database) (R : Keyspace StockKey ℤ) (i p q : ℤ) where
  after_close : Fate → R.State → D.Db × Result CloseResult → D.Db × R.State
  unfolding restore_closed_stock
  after_close fate s (d, ok c) = (d, (restore_closed_stock R fate c s).0)
  after_close fate s (d, err e) = (d, s)

  -- close, then restore if that returned
  unfoldable pub attempt : Attempt D → D.Db × R.State → D.Db × R.State
  unfolding after_close close_created_order
  attempt a (d, s) = after_close a.restoring s (close_created_order D a.meets a.seen i d)

  unfoldable pub attempts : List (Attempt D) → D.Db × R.State → D.Db × R.State
  unfolding attempt
  attempts [] w = w
  attempts (a ∷ later) w = attempts later (attempt a w)

  abbrev pub row_of : D.Db × R.State → Option Order
  row_of (d, s) = find_by_id (D.orders d) i

  abbrev pub stock_of : D.Db × R.State → ℤ
  stock_of (d, s) = number_at R s (whole p)

  -- An attempt changes neither the order nor the stock; or the order stops to hold its quantity, and
  -- the stock gets it; or the order stops to hold it and the stock does not get it, for the reason F.
  data Works (F : Type 0) (w w' : D.Db × R.State) : Type 0 where
    idles : held_by (row_of w') ≡ held_by (row_of w) → stock_of w' ≡ stock_of w → Works F w w'
    returns :
        held_by (row_of w) ≡ q
        → held_by (row_of w') ≡ pos 0
        → stock_of w' ≡ stock_of w +ℤ q
        → Works F w w'
    drops :
        held_by (row_of w) ≡ q
        → held_by (row_of w') ≡ pos 0
        → stock_of w' ≡ stock_of w
        → F
        → Works F w w'

  -- it works, and the row keeps its product and quantity
  abbrev Ok : Type 0 → D.Db × R.State → D.Db × R.State → Type 0
  Ok F w w' = Works F w w' × IsRow p q (row_of w')

  closed-Ok :
      (F : Type 0) (d d' : D.Db) (s t : R.State) (n : ℕ)
      → IsRow p q (row_of (d, s))
      → Closes i p q (D.orders d) (D.orders d') n
      → (n ≡ 1 → (stock_of (d, t) ≡ stock_of (d, s) +ℤ q) ⊎ ((t ≡ s) × F))
      → (n ≡ 0 → t ≡ s)
      → Ok F (d, s) (d', t)
  closed-Ok F d d' s t n k (closes one was now row) paid_ unpaid = elim (paid_ one) [
    | inl more ↦ (returns was now more, row)
    | inr (same, why) ↦ (drops was now (ap (λ x. number_at R x (whole p)) same) why, row)
  ]
  closed-Ok F d d' s t n k (leaves zero same was) paid_ unpaid = (
    idles (ap (λ l. held_by (find_by_id l i)) same)
        (ap (λ x. number_at R x (whole p)) (unpaid zero)),
    rw same k,
  )

  module _ (F : Type 0) (m : Meets) (fate : Fate) (d : D.Db) (s : R.State)
      (k : IsRow p q (row_of (d, s))) (unpaid : fate ≢ answered → F)
      (uncounted : m.counting ≢ none → F)
      (unheard : (e : Error) → m.updating ≡ answer_lost e → F) where
    rolled_back :
        (f : Fate)
        → fate ≡ f
        → let t = (rollback_pre_deduct R f (whole p) q s).0 in
          (number_at R t (whole p) ≡ number_at R s (whole p) +ℤ q) ⊎ ((t ≡ s) × F)
    unfolding rollback_pre_deduct
    rolled_back answered e = inl (ap number (R.get-put_self s (whole p) _))
    rolled_back (not_made x) e = inr (refl, unpaid (λ h. cc))
    rolled_back (answer_lost x) e = inl (ap number (R.get-put_self s (whole p) _))

    -- the answer that the worker takes to the script, or the error that it stops at
    counted-Ok :
        (d' : D.Db) (o : Order) (n : ℕ) (c : Option Error)
        → m.counting ≡ c
        → IsRow p q (some o)
        → Closes i p q (D.orders d) (D.orders d') n
        → Ok F (d, s) (after_close fate s (close_answer D m i o (d', ok n)))
    unfolding after_close close_answer restore_closed_stock rollback_pre_deduct
    counted-Ok d' o n (some x) e f done =
        rw e (closed-Ok F d d' s s n k done (λ _. inr (refl, uncounted (λ h. cc))) (λ _. refl))
    counted-Ok d' o n none e (fp, fq) done =
        rw (e, fp, fq)
          (closed-Ok F d d' s _ n k done (λ one. rw one (rolled_back fate refl))
            (λ zero. rw zero refl))

    updated-Ok :
        (o : Order) (f : Fate)
        → m.updating ≡ f
        → IsRow p q (some o)
        → Ok F (d, s) (after_close fate s (close_answer D m i o (call f (close_row D i) d)))
    unfolding after_close close_answer call
    updated-Ok o answered e f = counted-Ok _ o _ m.counting refl f (close_row-Closes D i p q d k)
    updated-Ok o (not_made x) e f = (idles refl refl, k)
    updated-Ok o (answer_lost x) e f =
        closed-Ok F d _ s s _ k (close_row-Closes D i p q d k) (λ _. inr (refl, unheard x e))
          (λ _. refl)

    found-Ok :
        (o : Option Order) → IsRow p q o → Ok F (d, s) (after_close fate s (close_found D m i d o))
    unfolding close_found
    found-Ok none h = absurd h
    found-Ok (some o) h = updated-Ok o m.updating refl h

    selected-Ok :
        (seen : D.Db) (x : Option Error)
        → m.selecting ≡ x
        → IsRow p q (find_by_id (D.orders seen) i)
        → Ok F (d, s) (after_close fate s (close_created_order D m seen i d))
    unfolding close_created_order after_close
    selected-Ok seen (some e) h f = rw h (idles refl refl, k)
    selected-Ok seen none h f = rw h (found-Ok _ f)

  -- A call of the attempt failed.
  abbrev pub Failed : Attempt D → Type 0
  Failed a =
      (a.restoring ≢ answered)
      ⊎ (a.meets.counting ≢ none)
      ⊎ ((e : Error) × (a.meets.updating ≡ answer_lost e))

  -- What the worker read has the product and the quantity of the order.
  abbrev pub Sees : Attempt D → Type 0
  Sees a = IsRow p q (find_by_id (D.orders a.seen) i)

  attempt-Ok :
      (a : Attempt D) (w : D.Db × R.State)
      → Sees a
      → IsRow p q (row_of w)
      → Ok (Failed a) w (attempt a w)
  unfolding attempt
  attempt-Ok a (d, s) h k =
      selected-Ok (Failed a) a.meets a.restoring d s k (λ x. inl x) (λ x. inr (inl x))
        (λ e x. inr (inr (e, x))) a.seen a.meets.selecting refl h

  abbrev pub All : (Attempt D → Type 0) → List (Attempt D) → Type 0
  All P [] = Unit {0}
  All P (a ∷ later) = P a × All P later

  -- what the order holds and the stock together
  abbrev pub together : D.Db × R.State → ℤ
  together w = stock_of w +ℤ held_by (row_of w)

  Works-together :
      {F : Type 0} (w w' : D.Db × R.State) → ¬ F → Works F w w' → together w' ≡ together w
  Works-together w w' no_ (idles a b) = rw (a, b) refl
  Works-together w w' no_ (returns a b c) = rw (a, b, c) (omega int_laws)
  Works-together w w' no_ (drops a b c f) = absurd (no_ f)

  Works-bounds :
      {F : Type 0} (w w' : D.Db × R.State)
      → pos 0 ≤ℤ q
      → Works F w w'
      → (together w' ≤ℤ together w) × (stock_of w ≤ℤ stock_of w')
  Works-bounds w w' h (idles a b) = rw (a, b) (omega int_laws)
  Works-bounds w w' h (returns a b c) = rw (a, b, c) (omega int_laws)
  Works-bounds w w' h (drops a b c f) = rw (a, b, c) (omega int_laws)

  -- Attempts of any number of workers in any order, none of whose calls that change something fails:
  -- the stock and what the order holds add up as before, so what the order held comes back once.
  pub attempts_together :
      (as_ : List (Attempt D)) (w : D.Db × R.State)
      → IsRow p q (row_of w)
      → All Sees as_
      → All (λ a. ¬ Failed a) as_
      → together (attempts as_ w) ≡ together w
  unfolding attempts
  attempts_together [] w k h f = refl
  attempts_together (a ∷ later) w k (h, hs) (f, fs) =
      let (one, row) = attempt-Ok a w h k in
      attempts_together later (attempt a w) row hs fs ∙ Works-together w (attempt a w) f one

  -- Attempts of any number of workers in any order, whatever fails: the stock never falls, and never
  -- gets more than the order held, if the quantity of the order is not negative.
  pub attempts_bounds :
      (as_ : List (Attempt D)) (w : D.Db × R.State)
      → pos 0 ≤ℤ q
      → IsRow p q (row_of w)
      → All Sees as_
      → (together (attempts as_ w) ≤ℤ together w) × (stock_of w ≤ℤ stock_of (attempts as_ w))
  unfolding attempts
  attempts_bounds [] w nonneg k h = omega int_laws
  attempts_bounds (a ∷ later) w nonneg k (h, hs) =
      let (one, row) = attempt-Ok a w h k in
      let first = Works-bounds w (attempt a w) nonneg one in
      let rest = attempts_bounds later (attempt a w) nonneg row hs in omega int_laws

  Works-shut :
      {F : Type 0} (w w' : D.Db × R.State)
      → pos 1 ≤ℤ q
      → held_by (row_of w) ≡ pos 0
      → Works F w w'
      → (held_by (row_of w') ≡ pos 0) × (stock_of w' ≡ stock_of w)
  Works-shut w w' h shut (idles a b) = (a ∙ shut, b)
  Works-shut w w' h shut (returns a b c) = absurd (positive_ne q h (sym a ∙ shut))
  Works-shut w w' h shut (drops a b c f) = (b, c)

  -- Once the order is closed no later attempt gives the stock back: a worker that stops between the
  -- UPDATE and the script, or never hears of the UPDATE, loses the quantity for good.
  pub attempts_shut :
      (as_ : List (Attempt D)) (w : D.Db × R.State)
      → pos 1 ≤ℤ q
      → IsRow p q (row_of w)
      → held_by (row_of w) ≡ pos 0
      → All Sees as_
      → stock_of (attempts as_ w) ≡ stock_of w
  unfolding attempts
  attempts_shut [] w positive k shut h = refl
  attempts_shut (a ∷ later) w positive k shut (h, hs) =
      let (one, row) = attempt-Ok a w h k in
      let (still, same) = Works-shut w (attempt a w) positive shut one in
      attempts_shut later (attempt a w) positive row still hs ∙ same
