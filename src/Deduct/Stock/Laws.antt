-- ===== src/Deduct/Stock/Laws.antt =====
-- internal/deduct/prededuct.go: what one script does to the stock in Redis, and what any sequence of
-- scripts does.
use seckill.Prelude.{
  ◌≡◌, ◌≢◌, inl, inr, refl, arith, true, false, Option, none, some, List, [], ◌∷◌, ℤ, pos, negsuc,
  ◌+ℤ◌, ◌-ℤ◌, ◌≤ℤ◌, ltb_ℤ, int_laws, Bool-cases, ap, ◌<ℤ◌,
}
use seckill.Errors.{Error, Result, ok, err, sentinel, order_insufficient_stock}
use seckill.Stores.Call.{Fate, answered, not_made, answer_lost}
use seckill.Stores.Keyspace.{Keyspace, number, number_at}
use seckill.Deduct.Stock.{StockKey, pre_deduct_script, rollback_script, read_answer, pre_deduct}

module _ (R : Keyspace StockKey ℤ) where
  -- A script leaves every key but its own.
  abbrev pub Others : StockKey → R.State → R.State → Type 0
  Others k s t = (j : StockKey) → j ≢ k → R.get t j ≡ R.get s j

  -- The script takes the quantity and answers what is left, which is not negative; or answers -1 and
  -- changes nothing, and then the key is missing or holds less than the quantity.
  pub data Deducts (k : StockKey) (qty : ℤ) (s t : R.State) (n : ℤ) : Type 0 where
    takes :
        (stock : ℤ)
        → R.get s k ≡ some stock
        → qty ≤ℤ stock
        → n ≡ stock -ℤ qty
        → R.get t k ≡ some n
        → Others k s t
        → Deducts k qty s t n
    refuses :
        n ≡ negsuc 0
        → t ≡ s
        → ((stock : ℤ) → R.get s k ≡ some stock → ltb_ℤ stock qty ≡ true)
        → Deducts k qty s t n

  pre_deduct_cases :
      (k : StockKey) (qty : ℤ) (s : R.State) (o : Option ℤ)
      → R.get s k ≡ o
      → let (t, n) = pre_deduct_script R k qty s in Deducts k qty s t n
  unfolding pre_deduct_script
  pre_deduct_cases k qty s none e = rw (e, pre_deduct_script) (refuses refl refl (λ stock h. cc))
  pre_deduct_cases k qty s (some stock) e = elim (Bool-cases (ltb_ℤ stock qty)) [
    | inl short ↦ rw (e, short, pre_deduct_script) (refuses refl refl (λ x h. ground arith))
    | inr enough ↦
        rw (e, enough, pre_deduct_script)
          (takes stock e (covered stock qty enough) (ap (λ o. number o -ℤ qty) e)
            (R.get-put_self s k _) (λ j ne. R.get-put_ne s j k _ ne))
  ]
    where
      covered : (a b : ℤ) → ltb_ℤ a b ≡ false → b ≤ℤ a
      covered a b h = ground arith

  pub pre_deduct_script-Deducts :
      (k : StockKey) (qty : ℤ) (s : R.State)
      → let (t, n) = pre_deduct_script R k qty s in Deducts k qty s t n
  pre_deduct_script-Deducts k qty s = pre_deduct_cases k qty s (R.get s k) refl

  -- The rollback adds the quantity to the key and leaves the others.
  pub rollback_script_lem :
      (k : StockKey) (qty : ℤ) (s : R.State)
      → let (t, n) = rollback_script R k qty s in
        (n ≡ number_at R s k +ℤ qty) × (R.get t k ≡ some n) × Others k s t
  unfolding rollback_script
  rollback_script_lem k qty s = (refl, R.get-put_self s k _, λ j ne. R.get-put_ne s j k _ ne)

  -- `PreDeduct` by its outcome: the caller is told what is left and that is taken; or the stock is
  -- too small and nothing changes; or the call fails, and the script may or may not have run.
  pub data PreDeducts (k : StockKey) (qty : ℤ) (s t : R.State) (r : Result ℤ) : Type 0 where
    grants :
        (left : ℤ)
        → r ≡ ok left
        → qty ≤ℤ number_at R s k
        → pos 0 ≤ℤ left
        → R.get t k ≡ some left
        → left ≡ number_at R s k -ℤ qty
        → Others k s t
        → PreDeducts k qty s t r
    declines : r ≡ err (sentinel order_insufficient_stock) → t ≡ s → PreDeducts k qty s t r
    unsent : (e : Error) → r ≡ err e → t ≡ s → PreDeducts k qty s t r
    unanswered : (e : Error) → r ≡ err e → ((n : ℤ) × Deducts k qty s t n) → PreDeducts k qty s t r

  pub read_answer_nonneg : (n : ℤ) → pos 0 ≤ℤ n → read_answer R n ≡ ok n
  read_answer_nonneg n h = ground arith

  pub answer_cases :
      (k : StockKey) (qty : ℤ) (s t : R.State) (n : ℤ)
      → Deducts k qty s t n
      → PreDeducts k qty s t (read_answer R n)
  answer_cases k qty s t n (takes stock e h a g o) =
      let there : number_at R s k ≡ stock = ap number e in
      let nonneg : pos 0 ≤ℤ n = rw a (omega int_laws) in
      grants n (read_answer_nonneg n nonneg) (rw there h) nonneg g (rw there a) o
  answer_cases k qty s t n (refuses a e h) = rw a (declines refl e)

  -- Every call of `PreDeduct` ends in one of these ways.
  pub pre_deduct-PreDeducts :
      (fate : Fate) (k : StockKey) (qty : ℤ) (s : R.State)
      → let (t, r) = pre_deduct R fate k qty s in PreDeducts k qty s t r
  unfolding pre_deduct
  pre_deduct-PreDeducts answered k qty s =
      answer_cases k qty s _ _ (pre_deduct_script-Deducts k qty s)
  pre_deduct-PreDeducts (not_made e) k qty s = unsent e refl refl
  pre_deduct-PreDeducts (answer_lost e) k qty s =
      unanswered e refl (_, pre_deduct_script-Deducts k qty s)

  -- An answer that is an error comes from a script that changed nothing.
  pub answer-err :
      (k : StockKey) (qty : ℤ) (s t : R.State) (n : ℤ) (e : Error)
      → Deducts k qty s t n
      → read_answer R n ≡ err e
      → t ≡ s
  answer-err k qty s t n e (takes stock h c a g o) f =
      let nonneg : pos 0 ≤ℤ n = rw a (omega int_laws) in ground arith
  answer-err k qty s t n e (refuses a h c) f = h

  abbrev granted : Result ℤ → ℤ → ℤ
  granted (ok _) qty = qty
  granted (err _) qty = pos 0

  -- Calls for one key, and the quantity that their callers were granted together.
  pub deduct_all : StockKey → List (Fate × ℤ) → R.State → R.State × ℤ
  deduct_all k [] s = (s, pos 0)
  deduct_all k ((fate, qty) ∷ calls) s =
      let (t, r) = pre_deduct R fate k qty s in
      let (u, n) = deduct_all k calls t in (u, granted r qty +ℤ n)

  abbrev pub AllPositive : List (Fate × ℤ) → Type 0
  AllPositive [] = Unit {0}
  AllPositive ((_, qty) ∷ calls) = (pos 1 ≤ℤ qty) × AllPositive calls

  Deducts-bounds :
      (k : StockKey) (qty : ℤ) (s t : R.State) (n : ℤ)
      → pos 1 ≤ℤ qty
      → pos 0 ≤ℤ number_at R s k
      → Deducts k qty s t n
      → (pos 0 ≤ℤ number_at R t k) × (number_at R t k ≤ℤ number_at R s k)
  Deducts-bounds k qty s t n h p (takes stock e c a g o) =
      let there : number_at R s k ≡ stock = ap number e in
      let then_ : number_at R t k ≡ n = ap number g in rw (then_, there, a) (omega int_laws)
  Deducts-bounds k qty s t n h p (refuses a e c) = rw e (omega arith)

  pre_deduct_bounds :
      (k : StockKey) (qty : ℤ) (s t : R.State) (r : Result ℤ)
      → pos 1 ≤ℤ qty
      → pos 0 ≤ℤ number_at R s k
      → PreDeducts k qty s t r
      → (pos 0 ≤ℤ number_at R t k) × (granted r qty +ℤ number_at R t k ≤ℤ number_at R s k)
  pre_deduct_bounds k qty s t r h p (grants left e c nn g l o) =
      let then_ : number_at R t k ≡ left = ap number g in rw (e, then_, l) (omega int_laws)
  pre_deduct_bounds k qty s t r h p (declines e same) = rw (e, same) (omega int_laws)
  pre_deduct_bounds k qty s t r h p (unsent x e same) = rw (e, same) (omega int_laws)
  pre_deduct_bounds k qty s t r h p (unanswered x e (n, d)) =
      rw e (omega (int_laws, Deducts-bounds k qty s t n h p d))

  -- Whatever calls for quantities of at least one are made for a key whose stock is not negative, in
  -- any order and with any answers lost, their callers are granted no more than the stock was, and the
  -- stock does not become negative.
  pub deduct_all-le-stock :
      (k : StockKey) (calls : List (Fate × ℤ)) (s : R.State)
      → AllPositive calls
      → pos 0 ≤ℤ number_at R s k
      → let (t, n) = deduct_all k calls s in
        (pos 0 ≤ℤ number_at R t k) × (n +ℤ number_at R t k ≤ℤ number_at R s k)
  unfolding deduct_all
  deduct_all-le-stock k [] s h p = (p, omega int_laws)
  deduct_all-le-stock k ((fate, qty) ∷ calls) s h p =
      let (t, r) = pre_deduct R fate k qty s in
      let (nonneg, fits) =
        pre_deduct_bounds k qty s t r h.0 p (pre_deduct-PreDeducts fate k qty s) in
      let (rest_nonneg, rest_fits) = deduct_all-le-stock k calls t h.1 nonneg in
      (rest_nonneg, omega int_laws)

  -- The test of the script is `stock < qty`: a quantity that is not positive always passes it where
  -- the stock is at least that, and raises the stock.
  pub negative_quantity_raises_stock :
      (k : StockKey) (q stock : ℤ) (s : R.State)
      → R.get s k ≡ some stock
      → pos 0 ≤ℤ stock
      → q ≤ℤ negsuc 0
      → let (t, r) = pre_deduct R answered k q s in
        (r ≡ ok (stock -ℤ q)) × (R.get t k ≡ some (stock -ℤ q)) × (stock <ℤ (stock -ℤ q))
  unfolding pre_deduct
  negative_quantity_raises_stock k q stock s e p h =
      let above : pos 0 ≤ℤ (stock -ℤ q) = omega int_laws in
      let rises : stock <ℤ (stock -ℤ q) = omega int_laws in
      let kept = R.get-put_self s k (stock -ℤ q) in ground arith
