-- ===== src/Api/Debug.antt =====
-- cmd/api/main.go: the small handlers of /debug around the cache, the buckets and the ledger. `id` is
-- what `strconv.ParseInt` makes of the parameter, and the other numbers what it makes of the query.
use seckill.Bucket.Spread.{spread_stock, total_remaining}
use seckill.Deduct.Stock.{StockKey, warm_stock, whole}
use seckill.Stores.Keyspace.{Keyspace}
use seckill.Prelude.{
  Option, ℤ, pos, String, ℕ, List, some, ◌≡◌, Bool, ◌∷◌, none, if◌then◌else◌, [], true, ◌-ℤ◌, ap,
  int_laws, refl,
}
use seckill.Reconcile.Ledger.{
  Entry, State, Visit, Report, Identity, reconcile_once, check_identity, holds,
}
use seckill.Stores.Database.{Database, Product}
use seckill.Stores.Call.{Fate, answered}
use seckill.Bucket.Probe.{Config}
use seckill.Cache.{Cached, warm, update_stock}
use seckill.Errors.{no_rows, cache_product_not_found, Error, Result, ok, err, sentinel, is}
use seckill.Order.Statements.{Env, at_select, sold}

-- What is sent as JSON.
data Shown : Type 0 where
  error_text : Error → Shown
  no_body : Shown
  bad_id bad_stock bad_initial bad_n bad_window : Shown
  product_stock : ℤ → ℤ → Shown
  product_shown : String × ℤ → Shown
  warmed : ℤ → Shown
  buckets_warmed : ℤ → List ℤ → ℤ → ℤ → Shown
  remaining_shown : ℤ → List ℤ → Shown
  identity_shown : Identity → Bool → Shown
  report_shown : Report → Shown
  failed_report : Error → Report → Shown
  armed : ℤ → Shown

nothing_left : (a : ℤ) → a -ℤ a -ℤ pos 0 ≡ pos 0
nothing_left a = omega int_laws

-- 200 with what a call returned, or 500 with its error
shown_or_500 : {A : Type 0} → (A → Shown) → Result A → ℕ × Shown
shown_or_500 f (ok a) = (200, f a)
shown_or_500 f (err e) = (500, error_text e)

-- the same, where `gin.Recovery` answers 500 to a panic
recovered : {A : Type 0} → (A → Shown) → Option (Result A) → ℕ × Shown
unfolding shown_or_500
recovered f none = (500, no_body)
recovered f (some r) = shown_or_500 f r

module _ (D : Database) where
  -- GET /debug/products/:id
  unfoldable debug_product : Env → Option ℤ → D.Db → ℕ × Shown
  debug_product env none d = (400, bad_id)
  debug_product env (some i) d = elim (env.down at_select) [
    | some e ↦ (404, error_text e)
    | none ↦ elim (D.product d i) [
      | none ↦ (404, error_text (sentinel no_rows))
      | some p ↦ (200, product_stock i p.stock)
    ]
  ]

  -- `SQLProductRepo.LoadProduct`
  unfoldable load_product : Env → ℤ → D.Db → Result (String × ℤ)
  load_product env i d = elim (env.down at_select) [
    | some e ↦ err e
    | none ↦ elim (D.product d i) [
      | none ↦ err (sentinel cache_product_not_found)
      | some p ↦ ok (p.name, p.stock)
    ]
  ]

  nocache_answer : Result (String × ℤ) → ℕ × Shown
  nocache_answer (ok p) = (200, product_shown p)
  nocache_answer (err e) =
      if is e cache_product_not_found then (404, error_text e) else (500, error_text e)

  -- GET /debug/products/:id/nocache
  unfoldable debug_nocache : Env → Option ℤ → D.Db → ℕ × Shown
  unfolding load_product nocache_answer
  debug_nocache env none d = (400, bad_id)
  debug_nocache env (some i) d = nocache_answer (load_product env i d)

  module _ (C : Keyspace ℤ Cached) where
    -- POST /debug/cache/warm/:id
    unfoldable debug_cache_warm : Env → Fate → Option ℤ → D.Db → C.State → C.State × (ℕ × Shown)
    unfolding warm shown_or_500
    debug_cache_warm env fill none d s = (s, (400, bad_id))
    debug_cache_warm env fill (some i) d s =
        let (t, r) = warm C D ((i, env, fill) ∷ []) d s in (t, shown_or_500 (λ u. warmed i) r)

    -- POST /debug/products/:id/stock
    unfoldable debug_set_stock :
        Env → Fate → Option ℤ → Option ℤ → D.Db → C.State → D.Db × C.State × (ℕ × Shown)
    unfolding update_stock shown_or_500
    debug_set_stock env delete none stock d s = (d, s, (400, bad_id))
    debug_set_stock env delete (some i) none d s = (d, s, (400, bad_stock))
    debug_set_stock env delete (some i) (some stock) d s =
        let (e, t, r) = update_stock C D env delete i stock d s in
        (e, t, shown_or_500 (λ u. product_stock i stock) r)

  module _ (R : Keyspace StockKey ℤ) where
    -- POST /debug/deduct/warm/:id
    unfoldable debug_deduct_warm : Env → Fate → Option ℤ → D.Db → R.State → R.State × (ℕ × Shown)
    unfolding warm_stock shown_or_500
    debug_deduct_warm env fate none d s = (s, (400, bad_id))
    debug_deduct_warm env fate (some i) d s =
        let (t, r) = warm_stock R D env fate i d s in (t, shown_or_500 (λ u. warmed i) r)

    -- POST /debug/bucket/warm/:id, with the configuration of the query
    unfoldable debug_bucket_warm :
        Env → Fate → Config → Option ℤ → D.Db → R.State → R.State × (ℕ × Shown)
    unfolding spread_stock recovered
    debug_bucket_warm env fate cfg none d s = (s, (400, bad_id))
    debug_bucket_warm env fate cfg (some i) d s =
        let (t, r) = spread_stock R D env fate i cfg.bucket_count d s in
        (t, recovered (λ plan. buckets_warmed i plan cfg.bucket_count cfg.max_probes) r)

    -- GET /debug/bucket/remaining/:id
    unfoldable debug_bucket_remaining : Fate → Config → Option ℤ → R.State → R.State × (ℕ × Shown)
    unfolding total_remaining recovered
    debug_bucket_remaining fate cfg none s = (s, (400, bad_id))
    debug_bucket_remaining fate cfg (some i) s =
        let (t, r) = total_remaining R fate i cfg.bucket_count s in
        (t, recovered (λ (total, buckets). remaining_shown total buckets) r)

    -- GET /debug/reconcile/identity/:id; `failing` is the error that `CheckIdentity` meets
    unfoldable debug_identity : Option Error → Option ℤ → Option ℤ → D.Db → R.State → ℕ × Shown
    unfolding check_identity
    debug_identity failing none initial d s = (400, bad_id)
    debug_identity failing (some i) none d s = (400, bad_initial)
    debug_identity failing (some i) (some initial) d s = elim failing [
      | some e ↦ (500, error_text e)
      | none ↦
          let identity = check_identity R s (D.orders d) i initial in
          (200, identity_shown identity (holds identity))
    ]

    warm_stock_lem :
        (env : Env) (i : ℤ) (d : D.Db) (s : R.State) (p : Product)
        → env.down at_select ≡ none
        → D.product d i ≡ some p
        → warm_stock R D env answered i d s ≡ (R.put s (whole i) p.stock, ok tt)
    unfolding warm_stock
    warm_stock_lem env i d s p up row = rw (warm_stock, up, row) refl

    check_identity-holds :
        (i : ℤ) (s : R.State) (stock : ℤ)
        → holds (check_identity R (R.put s (whole i) stock) [] i stock) ≡ true
    unfolding check_identity sold
    check_identity-holds i s stock = rw (R.get-put_self s (whole i) stock, nothing_left stock) refl

    -- After the stock of a product without orders is warmed, the identity holds for its stock in the
    -- tables.
    warm_then_identity :
        (env : Env) (i : ℤ) (d : D.Db) (s : R.State) (p : Product)
        → env.down at_select ≡ none
        → D.product d i ≡ some p
        → D.orders d ≡ []
        → let (t, answer) = debug_deduct_warm env answered (some i) d s in
          (answer ≡ (200, warmed i))
          × ((x : Identity) × (debug_identity none (some i) (some p.stock) d t
                ≡ (200, identity_shown x true)))
    unfolding debug_deduct_warm debug_identity
    warm_then_identity env i d s p up row fresh =
        let x = check_identity R (R.put s (whole i) p.stock) [] i p.stock in
        rw (warm_stock_lem env i d s p up row, fresh)
          (refl, (x, ap (λ b. (200, identity_shown x b)) (check_identity-holds i s p.stock)))

-- POST /debug/reconcile/crash, with the new switch
unfoldable debug_crash : Option ℤ → Option ℤ → Option ℤ × (ℕ × Shown)
debug_crash switch none = (switch, (400, bad_n))
debug_crash switch (some n) = (some n, (200, armed n))

abbrev no_report : Report
no_report = record {
  scanned = 0;
  refunded = 0;
  refunded_qty = pos 0;
  young = 0;
  settled = 0;
  already_reconciled = 0;
}

-- POST /debug/reconcile/run, by the report and the error of `ReconcileOnce`
run_answer : Report → Option Error → ℕ × Shown
run_answer report none = (200, report_shown report)
run_answer report (some e) = (500, failed_report e report)

module _ (R : Keyspace StockKey ℤ) (L : Keyspace String Entry) where
  -- the same; `window` is what `time.ParseDuration` makes of the query, `scanned` the entries of
  -- `ScanLedger` or its error
  unfoldable debug_run :
      Option ℤ → ℤ → Result (List (Visit R L)) → State R L → State R L × (ℕ × Shown)
  unfolding reconcile_once run_answer
  debug_run none now scanned s = (s, (400, bad_window))
  debug_run (some window) now (err e) s = (s, run_answer no_report (some e))
  debug_run (some window) now (ok visits) s =
      let (t, report, failed) = reconcile_once R L window now visits no_report s in
      (t, run_answer report failed)
