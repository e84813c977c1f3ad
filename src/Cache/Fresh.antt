-- ===== src/Cache/Fresh.antt =====
-- internal/cache/product.go: a cache that agrees with the rows stays so.
use seckill.Errors.{ok, Result, err, Error}
use seckill.Order.Statements.{Env, at_select, at_update}
use seckill.Stores.Call.{call, Fate, not_made, answer_lost, answered}
use seckill.Stores.Database.{Database, Product}
use seckill.Cache.{
  Cached, load_and_fill, cached, answer, get_found, get_product, update_stock, drop_key, update_row,
}
use seckill.Prelude.{
  ℤ, ◌≡◌, none, some, Option-cases, inr, inl, String, Option, refl, ◌≢◌, subst, sym, ◌⊎◌,
}
use seckill.Stores.Keyspace.{Keyspace}

module _ (C : Keyspace ℤ Cached) (D : Database) where
  -- The key is absent, or holds what the row says.
  pub data Fresh (i : ℤ) (d : D.Db) (s : C.State) : Type 0 where
    absent : C.get s i ≡ none → Fresh i d s
    agrees : C.get s i ≡ some (cached (D.product d i)) → Fresh i d s

  fill-Fresh :
      (fill : Fate) (i : ℤ) (d : D.Db) (s : C.State)
      → Fresh i d s
      → Fresh i d (call fill (λ s. (C.put s i (cached (D.product d i)), tt {0})) s).0
  unfolding call
  fill-Fresh answered i d s f = agrees (C.get-put_self s i _)
  fill-Fresh (not_made e) i d s f = f
  fill-Fresh (answer_lost e) i d s f = agrees (C.get-put_self s i _)

  -- What `Get` answers: what the row says; or the error of the read of Redis; or, where the key is
  -- absent, the error of the read of the row.
  pub data Gets (env : Env) (read : Fate) (i : ℤ) (d : D.Db) (s : C.State) (r : Result (String × ℤ))
      : Type 0 where
    shows : read ≡ answered → r ≡ answer (cached (D.product d i)) → Gets env read i d s r
    unread :
        (e : Error)
        → (read ≡ not_made e) ⊎ (read ≡ answer_lost e)
        → r ≡ err e
        → Gets env read i d s r
    unloaded :
        (e : Error)
        → read ≡ answered
        → C.get s i ≡ none
        → env.down at_select ≡ some e
        → r ≡ err e
        → Gets env read i d s r

  load_and_fill-Fresh :
      (env : Env) (fill : Fate) (i : ℤ) (d : D.Db) (s : C.State)
      → C.get s i ≡ none
      → Fresh i d s
      → let (t, r) = load_and_fill C D env fill i d s in Fresh i d t × Gets env answered i d s r
  unfolding load_and_fill
  load_and_fill-Fresh env fill i d s h f = elim (Option-cases (env.down at_select)) [
    | inr (e, down) ↦ rw (down, load_and_fill) (f, unloaded e refl h down refl)
    | inl up ↦ rw (up, load_and_fill) (fill-Fresh fill i d s f, shows refl refl)
  ]

  get_found-Fresh :
      (env : Env) (fill : Fate) (i : ℤ) (d : D.Db) (s : C.State) (o : Option Cached)
      → C.get s i ≡ o
      → Fresh i d s
      → let (t, r) = get_found C D env fill i d (s, ok o) in Fresh i d t × Gets env answered i d s r
  unfolding get_found
  get_found-Fresh env fill i d s none h f = load_and_fill-Fresh env fill i d s h f
  get_found-Fresh env fill i d s (some c) h (absent g) = cc
  get_found-Fresh env fill i d s (some c) h (agrees g) =
      let same : c ≡ cached (D.product d i) = cc in (agrees g, rw same (shows refl refl))

  -- `Get`, with a cache that agrees with the row: where the read of Redis is answered it returns the
  -- row's name and stock, or that there is no product if there is no row, unless the key is absent and
  -- the read of the row fails, and then that error; where it is not answered it returns its error; and
  -- the cache agrees with the row afterwards, whichever calls to Redis fail.
  pub get_product-Fresh :
      (env : Env) (read fill : Fate) (i : ℤ) (d : D.Db) (s : C.State)
      → Fresh i d s
      → let (t, r) = get_product C D env read fill i d s in Fresh i d t × Gets env read i d s r
  unfolding get_product get_found call
  get_product-Fresh env answered fill i d s f = get_found-Fresh env fill i d s _ refl f
  get_product-Fresh env (not_made e) fill i d s f = (f, unread e (inl refl) refl)
  get_product-Fresh env (answer_lost e) fill i d s f = (f, unread e (inr refl) refl)

  update_row-err :
      (env : Env) (i stock : ℤ) (d : D.Db) (e : Error)
      → (update_row C D env i stock d).1 ≡ err e
      → (update_row C D env i stock d).0 ≡ d
  unfolding update_row
  update_row-err env i stock d e h = elim (Option-cases (env.down at_update)) [
    | inr (x, down) ↦ rw (down, update_row) refl
    | inl up ↦ elim (Option-cases (D.product d i)) [
      | inl gone ↦ rw (up, gone, update_row) refl
      | inr (p, there) ↦ cc (wrote p up there)
    ]
  ]
    where
      wrote :
          (p : Product)
          → env.down at_update ≡ none
          → D.product d i ≡ some p
          → (update_row C D env i stock d).1 ≡ ok tt
      wrote p up there = rw (up, there, update_row) refl

  drop_key-Fresh :
      (delete : Fate) (i : ℤ) (d : D.Db) (s : C.State) (u : D.Db × Result (Unit {0}))
      → ((e : Error) → delete ≢ not_made e)
      → Fresh i d s
      → ((e : Error) → u.1 ≡ err e → u.0 ≡ d)
      → let (d', t, r) = drop_key C D delete i s u in Fresh i d' t
  unfolding drop_key call
  drop_key-Fresh delete i d s (d', err e) made f same =
      subst (λ d. Fresh i d s) (sym (same e refl)) f
  drop_key-Fresh answered i d s (d', ok x) made f same = absent (C.get-del_self s i)
  drop_key-Fresh (not_made e) i d s (d', ok x) made f same = absurd (made e refl)
  drop_key-Fresh (answer_lost e) i d s (d', ok x) made f same = absent (C.get-del_self s i)

  -- `UpdateStock`, with a cache that agrees with the row: it agrees again if the row is not written or
  -- the key's deletion reaches Redis, even if its answer is lost.
  pub update_stock-Fresh :
      (env : Env) (delete : Fate) (i stock : ℤ) (d : D.Db) (s : C.State)
      → ((e : Error) → delete ≢ not_made e)
      → Fresh i d s
      → let (d', t, r) = update_stock C D env delete i stock d s in Fresh i d' t
  unfolding update_stock drop_key update_row call
  update_stock-Fresh env delete i stock d s made f =
      drop_key-Fresh delete i d s _ made f (update_row-err env i stock d)
