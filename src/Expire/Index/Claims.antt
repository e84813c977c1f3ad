-- ===== src/Expire/Index/Claims.antt =====
-- internal/expire/p1_claim.go: an order that one worker claimed is hidden from the others until its
-- new score is due.
use seckill.Errors.{Result, ok, err}
use seckill.Stores.Call.{Fate, not_made, answer_lost, answered}
use seckill.Prelude.{
  string_dec, String, List, ℕ, IsIn, ◌∷◌, ◌≡◌, some, inr, ◌++◌, ◌<◌, inl, ◌∙◌, [], arith, ◌⊎◌, ◌+◌,
  refl, ◌≤◌, length, sym,
}
use seckill.Expire.Index.{SortedSet, add_all, claim_due, claim_due_script}

module _ (Z : SortedSet) where
  scored_add :
      (s : Z.State) (x y : String) (t : ℕ) → Z.score s x ≡ some t → Z.score (Z.add s y t) x ≡ some t
  scored_add s x y t h = elim (string_dec x y) [
    | yes e ↦ rw e (Z.score-add_self s y t)
    | no ne ↦ Z.score-add_ne s x y t ne ∙ h
  ]

  scored_add_all :
      (t : ℕ) (xs : List String) (s : Z.State) (x : String)
      → Z.score s x ≡ some t
      → Z.score (add_all Z t xs s) x ≡ some t
  unfolding add_all
  scored_add_all t [] s x h = h
  scored_add_all t (y ∷ ys) s x h = scored_add_all t ys (Z.add s y t) x (scored_add s x y t h)

  score-add_all :
      (t : ℕ) (xs : List String) (s : Z.State) (x : String)
      → IsIn x xs
      → Z.score (add_all Z t xs s) x ≡ some t
  unfolding add_all
  score-add_all t [] s x h = absurd h
  score-add_all t (y ∷ ys) s x (inl e) =
      scored_add_all t ys (Z.add s y t) x (rw e (Z.score-add_self s y t))
  score-add_all t (y ∷ ys) s x (inr h) = score-add_all t ys (Z.add s y t) x h

  score-add_all_out :
      (t : ℕ) (xs : List String) (s : Z.State) (x : String)
      → ¬ IsIn x xs
      → Z.score (add_all Z t xs s) x ≡ Z.score s x
  unfolding add_all
  score-add_all_out t [] s x h = refl
  score-add_all_out t (y ∷ ys) s x h =
      score-add_all_out t ys (Z.add s y t) x (λ i. h (inr i))
      ∙ Z.score-add_ne s x y t (λ e. h (inl e))

  -- A claim of a worker: when, how many at most, for how long, and the fate of the call.
  pub record Claim : Type 0 where
    pub fate : Fate
    pub now : ℕ
    pub batch_size : ℕ
    pub claim_extension : ℕ

  abbrev pub values : Result (List String) → List String
  values (ok xs) = xs
  values (err e) = []

  -- Claims of any workers one after the other, and all that they were given.
  unfoldable pub claims : List Claim → Z.State → Z.State × List String
  unfolding claim_due
  claims [] s = (s, [])
  claims (c ∷ cs) s =
      let (t, r) = claim_due Z c.fate c.now c.batch_size c.claim_extension s in
      let (u, ys) = claims cs t in (u, values r ++ ys)

  abbrev pub AllBefore : ℕ → List Claim → Type 0
  AllBefore t [] = Unit {0}
  AllBefore t (c ∷ cs) = (c.now < t) × AllBefore t cs

  not_due :
      (s : Z.State) (x : String) (t now n : ℕ)
      → Z.score s x ≡ some t
      → now < t
      → ¬ IsIn x (Z.range s now n)
  not_due s x t now n e h i = let (u, at, le) = Z.range_due s now n x i in ground arith

  -- a claim passes over an order that is not due yet
  claim_due_passes :
      (fate : Fate) (now n ext : ℕ) (s : Z.State) (x : String) (t : ℕ)
      → Z.score s x ≡ some t
      → now < t
      → let (s', r) = claim_due Z fate now n ext s in
        (¬ IsIn x (values r)) × (Z.score s' x ≡ some t)
  unfolding claim_due
  claim_due_passes answered now n ext s x t e h =
      let hidden = not_due s x t now n e h in
      (hidden, score-add_all_out (now + ext) (Z.range s now n) s x hidden ∙ e)
  claim_due_passes (not_made y) now n ext s x t e h = ((λ i. i), e)
  claim_due_passes (answer_lost y) now n ext s x t e h =
      ((λ i. i), score-add_all_out (now + ext) (Z.range s now n) s x (not_due s x t now n e h) ∙ e)

  IsIn-append : (x : String) (xs ys : List String) → IsIn x (xs ++ ys) → IsIn x xs ⊎ IsIn x ys
  IsIn-append x [] ys h = inr h
  IsIn-append x (y ∷ xs) ys (inl e) = inl (inl e)
  IsIn-append x (y ∷ xs) ys (inr h) = elim (IsIn-append x xs ys h) [
    | inl i ↦ inl (inr i)
    | inr i ↦ inr i
  ]

  claims_pass :
      (cs : List Claim) (s : Z.State) (x : String) (t : ℕ)
      → Z.score s x ≡ some t
      → AllBefore t cs
      → ¬ IsIn x (claims cs s).1
  unfolding claims
  claims_pass [] s x t e h i = i
  claims_pass (c ∷ cs) s x t e (b, bs) i =
      let (first, kept) = claim_due_passes c.fate c.now c.batch_size c.claim_extension s x t e b in
      elim (IsIn-append x _ _ i) [ inl j ↦ first j | inr j ↦ claims_pass cs _ x t kept bs j ]

  -- An order that the script of a claim picks, whether or not the worker hears of it, was due, has the
  -- claim's extension as its score afterwards, and is in no answer of the claims that any workers make
  -- before that extension is over.
  pub claim_due_once :
      (now n ext : ℕ) (s : Z.State) (cs : List Claim) (x : String)
      → let (s', due) = claim_due_script Z now n (now + ext) s in
        IsIn x due
        → AllBefore (now + ext) cs
        → ((t : ℕ) × (Z.score s x ≡ some t) × (t ≤ now))
          × (Z.score s' x ≡ some (now + ext))
          × (¬ IsIn x (claims cs s').1)
  unfolding claim_due_script
  claim_due_once now n ext s cs x h b =
      let moved = score-add_all (now + ext) (Z.range s now n) s x h in
      (Z.range_due s now n x h, moved, claims_pass cs _ x (now + ext) moved b)

  IsIn-cases : (x : String) (xs : List String) → IsIn x xs ⊎ (¬ IsIn x xs)
  IsIn-cases x [] = inr (λ i. i)
  IsIn-cases x (y ∷ ys) = elim (string_dec x y) [
    | yes e ↦ inl (inl e)
    | no ne ↦ elim (IsIn-cases x ys) [
      | inl h ↦ inl (inr h)
      | inr h ↦ inr (λ i. elim i [ inl e ↦ ne e | inr j ↦ h j ])
    ]
  ]

  drained :
      (now n ext : ℕ) (s : Z.State) (x : String) (t : ℕ)
      → 1 ≤ ext
      → length (Z.range s now n) < n
      → Z.score (add_all Z (now + ext) (Z.range s now n) s) x ≡ some t
      → (t ≤ now) ⊎ (now < t)
      → now < t
  drained now n ext s x t h few e (inr later) = later
  drained now n ext s x t h few e (inl due) = elim (IsIn-cases x (Z.range s now n)) [
    | inl i ↦ let moved = score-add_all (now + ext) (Z.range s now n) s x i in ground arith
    | inr out ↦ absurd (
        out (
          Z.range_full s now n x t few
            (sym (score-add_all_out (now + ext) (Z.range s now n) s x out) ∙ e) due))
  ]

  -- A claim hands out at most a batch; if it hands out less, no order is due after it, if the
  -- extension is not 0.
  pub claim_due_drains :
      (now n ext : ℕ) (s : Z.State)
      → 1 ≤ ext
      → let (s', due) = claim_due_script Z now n (now + ext) s in
        (length due ≤ n) × (length due < n → (x : String) (t : ℕ) → Z.score s' x ≡ some t → now < t)
  unfolding claim_due_script
  claim_due_drains now n ext s h =
      (Z.range_short s now n, λ few x t e. drained now n ext s x t h few e (omega arith))
