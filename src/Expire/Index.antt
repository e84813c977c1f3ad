-- ===== src/Expire/Index.antt =====
-- internal/expire/p1_claim.go and `RemoveProcessedExpiry` of p2_close.go: the sorted set of orders by
-- the time at which they are due.
pub mod Claims
use seckill.Errors.{Result}
use seckill.Stores.Call.{call, Fate}
use seckill.Prelude.{
  String, ℕ, Option, List, ◌≡◌, ◌∷◌, some, ◌+◌, ◌≢◌, none, IsIn, ◌≤◌, length, ◌<◌, [],
}

-- A Redis sorted set, as an interface: ZSCORE, ZADD, ZREM and ZRANGE … BYSCORE LIMIT 0 n, with what
-- Redis documents of them. A score is a time in milliseconds.
pub record SortedSet : Type 1 where
  pub State : Type 0
  pub score : State → String → Option ℕ
  pub add : State → String → ℕ → State
  pub rem : State → String → State
  pub range : State → ℕ → ℕ → List String
  pub score-add_self : (s : State) (x : String) (t : ℕ) → score (add s x t) x ≡ some t
  pub score-add_ne : (s : State) (x y : String) (t : ℕ) → x ≢ y → score (add s y t) x ≡ score s x
  pub score-rem_self : (s : State) (x : String) → score (rem s x) x ≡ none
  pub score-rem_ne : (s : State) (x y : String) → x ≢ y → score (rem s y) x ≡ score s x
  -- what is listed is due, and no more than the limit is listed; all that is due if less is listed
  pub range_due :
      (s : State) (now n : ℕ) (x : String)
      → IsIn x (range s now n)
      → (t : ℕ) × (score s x ≡ some t) × (t ≤ now)
  pub range_short : (s : State) (now n : ℕ) → length (range s now n) ≤ n
  pub range_full :
      (s : State) (now n : ℕ) (x : String) (t : ℕ)
      → length (range s now n) < n
      → score s x ≡ some t
      → t ≤ now
      → IsIn x (range s now n)

module _ (Z : SortedSet) where
  -- `IndexOrder`
  unfoldable pub index_order : Fate → String → ℕ → Z.State → Z.State × Result (Unit {0})
  unfolding call
  index_order fate x at s = call fate (λ s. (Z.add s x at, tt)) s

  -- the loop of `claimDueScript`
  unfoldable pub add_all : ℕ → List String → Z.State → Z.State
  add_all t [] s = s
  add_all t (x ∷ xs) s = add_all t xs (Z.add s x t)

  -- `claimDueScript`
  unfoldable pub claim_due_script : ℕ → ℕ → ℕ → Z.State → Z.State × List String
  unfolding add_all
  claim_due_script now batch_size new_score s =
      let due = Z.range s now batch_size in (add_all new_score due s, due)

  -- `ClaimDue`
  unfoldable pub claim_due : Fate → ℕ → ℕ → ℕ → Z.State → Z.State × Result (List String)
  unfolding claim_due_script call
  claim_due fate now batch_size claim_extension s =
      call fate (claim_due_script now batch_size (now + claim_extension)) s

  -- `RemoveProcessedExpiry`, of the order with this member
  unfoldable pub remove_processed_expiry : Fate → String → Z.State → Z.State × Result (Unit {0})
  unfolding call
  remove_processed_expiry fate x s = call fate (λ s. (Z.rem s x, tt)) s
