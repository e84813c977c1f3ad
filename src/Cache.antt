-- ===== src/Cache.antt =====
-- internal/cache: products read through a cache, with a mark for those that do not exist.
pub mod Fresh
use seckill.Order.Statements.{Env, at_update, at_select}
use seckill.Stores.Call.{call, Fate}
use seckill.Stores.Database.{Product, Database}
use seckill.Stores.Keyspace.{Keyspace}
use seckill.Errors.{Result, err, sentinel, ok, cache_product_not_found, is}
use seckill.Prelude.{◌∷◌, String, Option, ℤ, some, List, none, true, false, [], ℕ, suc}

-- What a key of the cache holds: `NotFoundPlaceholder`, or a product.
pub data Cached : Type 0 where
  missing : Cached
  holds : String → ℤ → Cached

-- the value that `loadAndFill` writes for a row, or for none
abbrev pub cached : Option Product → Cached
cached none = missing
cached (some p) = holds p.name p.stock

-- what a value of the cache answers
abbrev pub answer : Cached → Result (String × ℤ)
answer missing = err (sentinel cache_product_not_found)
answer (holds name stock) = ok (name, stock)

module _ (C : Keyspace ℤ Cached) (D : Database) where
  -- `loadAndFill`; the result of the SET is dropped
  unfoldable pub load_and_fill : Env → Fate → ℤ → D.Db → C.State → C.State × Result (String × ℤ)
  unfolding call
  load_and_fill env fill i d s = elim (env.down at_select) [
    | some e ↦ (s, err e)
    | none ↦ (
      (call fill (λ s. (C.put s i (cached (D.product d i)), tt {0})) s).0,
      answer (cached (D.product d i)),
    )
  ]

  -- what `ProductCache.Get` makes of the answer to its GET
  unfoldable pub get_found :
      Env → Fate → ℤ → D.Db → C.State × Result (Option Cached) → C.State × Result (String × ℤ)
  unfolding load_and_fill
  get_found env fill i d (s, err e) = (s, err e)
  get_found env fill i d (s, ok (some c)) = (s, answer c)
  get_found env fill i d (s, ok none) = load_and_fill env fill i d s

  -- `ProductCache.Get`; the calls that single flight joins are one call
  unfoldable pub get_product :
      Env → Fate → Fate → ℤ → D.Db → C.State → C.State × Result (String × ℤ)
  unfolding get_found call
  get_product env read fill i d s = get_found env fill i d (call read (λ s. (s, C.get s i)) s)

  warm_next :
      C.State × Result (String × ℤ)
      → (C.State → C.State × Result (Unit {0}))
      → C.State × Result (Unit {0})
  warm_next (s, ok p) next = next s
  warm_next (s, err e) next = elim (is e cache_product_not_found) [
    | true ↦ next s
    | false ↦ (s, err e)
  ]

  -- `Warm`
  unfoldable pub warm : List (ℤ × Env × Fate) → D.Db → C.State → C.State × Result (Unit {0})
  unfolding load_and_fill warm_next
  warm [] d s = (s, ok tt)
  warm ((i, env, fill) ∷ ids) d s = warm_next (load_and_fill env fill i d s) (warm ids d)

  -- `SQLProductRepo.UpdateStock`
  unfoldable pub update_row : Env → ℤ → ℤ → D.Db → D.Db × Result (Unit {0})
  update_row env i stock d = elim (env.down at_update) [
    | some e ↦ (d, err e)
    | none ↦ elim (D.product d i) [
      | none ↦ (d, err (sentinel cache_product_not_found))
      | some p ↦ (D.put_product d i (record p { stock = stock }), ok tt)
    ]
  ]

  unfoldable pub drop_key :
      Fate → ℤ → C.State → D.Db × Result (Unit {0}) → D.Db × C.State × Result (Unit {0})
  unfolding call
  drop_key delete i s (d, err e) = (d, s, err e)
  drop_key delete i s (d, ok _) = let (t, r) = call delete (λ s. (C.del s i, tt {0})) s in (d, t, r)

  -- `ProductCache.UpdateStock`: the row, and then the key
  unfoldable pub update_stock :
      Env → Fate → ℤ → ℤ → D.Db → C.State → D.Db × C.State × Result (Unit {0})
  unfolding drop_key update_row
  update_stock env delete i stock d s = drop_key delete i s (update_row env i stock d)

-- `CountingRepo` around a repository: the loads that it let through
unfoldable pub count_load {ℓ} : {A : Type ℓ} → (ℤ → Result A) → ℤ → ℕ → ℕ × Result A
count_load load i loads = (suc loads, load i)
