-- ===== src/Shard/Opened.antt =====
-- internal/shard: either all pools are open, or those that were opened are closed again.
use seckill.Errors.{Result, ok, Error, err, Result-cases}
use seckill.Prelude.{
  ℕ, List, [], ◌≡◌, Option, set, length, ◌+◌, map, suc, arith, subst, ◌++◌, some, ◌∷◌,
  length-append, none, replicate, ap, refl, zero, sym, ◌∙◌, inl, inr,
}
use mathlib.Core.List.{append-nil}
use seckill.Shard.{Opening, open_pools, open_from, close_pools, shard_count}

module _ {Pool : Type 0} (open_shard : ℕ → Result Pool) where
  -- The pools of the first shards, in order.
  pub data Opens : ℕ → List Pool → Type 0 where
    nothing : Opens 0 []
    next :
        {n : ℕ} {ps : List Pool} {p : Pool}
        → Opens n ps
        → open_shard n ≡ ok p
        → Opens (suc n) (ps ++ p ∷ [])

  -- All shards are opened, each pool stands at its shard and none is closed; or a shard fails, and
  -- exactly the pools opened before it are closed.
  pub data AllOrNone (r : Opening Pool) : Type 0 where
    all_open :
        (ps : List Pool)
        → Opens shard_count ps
        → r.pools ≡ map some ps
        → r.closed ≡ []
        → r.failed ≡ none
        → AllOrNone r
    rolled_back :
        (n : ℕ) (ps : List Pool) (e : Error)
        → Opens n ps
        → open_shard n ≡ err e
        → r.closed ≡ ps
        → r.failed ≡ some (n, e)
        → AllOrNone r

  filled : List Pool → ℕ → List (Option Pool)
  filled ps left = map some ps ++ replicate left none

  close-filled : (ps : List Pool) (left : ℕ) → close_pools (filled ps left) ≡ ps
  unfolding close_pools filled
  close-filled [] zero = refl
  close-filled [] (suc left) = close-filled [] left
  close-filled (p ∷ ps) left = ap (λ qs. p ∷ qs) (close-filled ps left)

  set-filled :
      (ps : List Pool) (left : ℕ) (p : Pool)
      → set (filled ps (suc left)) (length ps) (some p) ≡ filled (ps ++ p ∷ []) left
  unfolding filled
  set-filled [] left p = refl
  set-filled (q ∷ ps) left p = ap (λ qs. some q ∷ qs) (set-filled ps left p)

  length-Opens : {n : ℕ} {ps : List Pool} → Opens n ps → length ps ≡ n
  length-Opens nothing = refl
  length-Opens (next {ps = ps} {p} o e) = omega (arith, length-append ps (p ∷ []), length-Opens o)

  open_from-AllOrNone :
      (left n : ℕ) (ps : List Pool)
      → left + n ≡ shard_count
      → Opens n ps
      → AllOrNone (open_from open_shard left n (filled ps left))
  unfolding open_from filled
  open_from-AllOrNone zero n ps e o =
      all_open ps (subst (λ k. Opens k ps) (omega arith) o) (append-nil (map some ps)) refl refl
  open_from-AllOrNone (suc left) n ps e o = elim (Result-cases (open_shard n)) [
    | inl (x, h) ↦ rw (open_from, h) (rolled_back n ps x o h (close-filled ps (suc left)) refl)
    | inr (p, h) ↦
        let at_n = ap (λ k. set (filled ps (suc left)) k (some p)) (sym (length-Opens o)) in
        rw (open_from, h)
          (subst (λ qs. AllOrNone (open_from open_shard left (suc n) qs))
            (sym (at_n ∙ set-filled ps left p))
            (open_from-AllOrNone left (suc n) (ps ++ p ∷ []) (omega arith) (next o h)))
  ]

  -- `OpenPools` opens the four pools, or closes exactly those that it has opened before it fails.
  pub open_pools-AllOrNone : AllOrNone (open_pools open_shard)
  unfolding open_pools filled
  open_pools-AllOrNone = open_from-AllOrNone shard_count 0 [] (omega arith) nothing
