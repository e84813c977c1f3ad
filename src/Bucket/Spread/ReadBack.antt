-- ===== src/Bucket/Spread/ReadBack.antt =====
-- internal/bucket/p2_spread.go: what was spread over the buckets is read back.
use seckill.Errors.{ok}
use seckill.Bucket.Spread.Total.{sum-planned-eq-stock}
use seckill.Stores.Call.{answered}
use seckill.Stores.Database.{Database, Product}
use seckill.Order.Statements.{select_product, Env, at_select}
use seckill.Stores.Keyspace.{Keyspace}
use seckill.Bucket.Spread.{
  planned, write_buckets, read_buckets, spread_stock, total_call, spread, total_remaining, quotient,
  remainder, sum,
}
use seckill.Deduct.Stock.{StockKey, whole, part}
use seckill.Prelude.{
  sym, pos, ℤ, ℕ, ◌<◌, length, List, ◌≡◌, ◌≢◌, suc, ◌∷◌, ap, arith, some, ◌∙◌, zero, [], refl, none,
  subst,
}

abbrev bucket_of : StockKey → ℕ
bucket_of (whole i) = 0
bucket_of (part i b) = b

part_ne : (i : ℤ) (b c : ℕ) → c < b → part i c ≢ part i b
part_ne i b c h e = let same : c ≡ b = ap bucket_of e in omega arith

length-planned : (base rest : ℤ) (b left : ℕ) → length (planned base rest b left) ≡ left
unfolding planned
length-planned base rest b zero = refl
length-planned base rest b (suc left) = ap suc (length-planned base rest (suc b) left)

module _ (R : Keyspace StockKey ℤ) (i : ℤ) where
  get-write_buckets :
      (vs : List ℤ) (b c : ℕ) (s : R.State)
      → c < b
      → R.get (write_buckets R i b vs s) (part i c) ≡ R.get s (part i c)
  unfolding write_buckets
  get-write_buckets [] b c s h = refl
  get-write_buckets (v ∷ vs) b c s h =
      get-write_buckets vs (suc b) c _ (omega arith)
      ∙ R.get-put_ne s (part i c) (part i b) v (part_ne i b c h)

  read_buckets-write_buckets :
      (vs : List ℤ) (b : ℕ) (s : R.State)
      → read_buckets R i b (length vs) (write_buckets R i b vs s) ≡ vs
  unfolding read_buckets write_buckets
  read_buckets-write_buckets [] b s = refl
  read_buckets-write_buckets (v ∷ vs) b s =
      let t = R.put s (part i b) v in
      let first : R.get (write_buckets R i (suc b) vs t) (part i b) ≡ some v =
        get-write_buckets vs (suc b) b t (omega arith) ∙ R.get-put_self s (part i b) v in
      rw (first, read_buckets-write_buckets vs (suc b) t) refl

  total_call_lem :
      (n : ℕ) (t : R.State) (plan : List ℤ) (stock : ℤ)
      → read_buckets R i 0 n t ≡ plan
      → sum plan ≡ stock
      → total_call R answered i n t ≡ (t, some (ok (stock, plan)))
  unfolding total_call
  total_call_lem n t plan stock back total = rw (back, total) refl

  -- `SpreadStock` of a row whose stock is not negative over at least one bucket, where its calls are
  -- answered, returns a plan with one number for each bucket, whose sum is the stock; and
  -- `TotalRemaining` of as many buckets then reads back that stock and that plan, whatever the buckets
  -- held before.
  pub total_remaining-spread_stock :
      (D : Database) (env : Env) (less m : ℕ) (d : D.Db) (s : R.State) (p : Product)
      → env.down at_select ≡ none
      → D.product d i ≡ some p
      → p.stock ≡ pos m
      → let (t, r) = spread_stock R D env answered i (pos (suc less)) d s in
        (plan : List ℤ) × (r ≡ some (ok plan))
        × (length plan ≡ suc less)
        × (sum plan ≡ p.stock)
        × (total_remaining R answered i (pos (suc less)) t ≡ (t, some (ok (p.stock, plan))))
  unfolding spread_stock select_product spread total_remaining
  total_remaining-spread_stock D env less m d s p up there holds =
      let n = suc less in
      let plan = planned (quotient p.stock n) (remainder p.stock n) 0 n in
      let size = length-planned (quotient p.stock n) (remainder p.stock n) 0 n in
      let whole_stock : sum plan ≡ p.stock =
        subst (λ x. sum (planned (quotient x n) (remainder x n) 0 n) ≡ x) (sym holds)
          (sum-planned-eq-stock m n (omega arith)) in
      let back : read_buckets R i 0 n (write_buckets R i 0 plan s) ≡ plan =
        subst (λ k. read_buckets R i 0 k (write_buckets R i 0 plan s) ≡ plan) size
          (read_buckets-write_buckets plan 0 s) in
      (
        plan,
        rw (up, there, spread_stock) refl,
        size,
        whole_stock,
        rw (up, there, spread_stock) (total_call_lem n _ plan p.stock back whole_stock),
      )
