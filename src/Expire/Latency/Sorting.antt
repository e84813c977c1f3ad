-- ===== src/Expire/Latency/Sorting.antt =====
-- internal/expire/p3_latency.go: the sorted copy has the same samples, in ascending order.
use seckill.Expire.Latency.{sort, insert}
use seckill.Prelude.{
  ℤ, List, Bool, ◌∷◌, leb_ℤ, ℕ, ltb_ℤ, ◌≤ℤ◌, length, int_laws, Bool-cases, ◌≡◌, get_elem?,
  if◌then◌else◌, [], inl, arith, ◌∙◌, ◌+◌, false, suc, some, inr, ap, ◌≤◌, zero, refl, leb_ℤ→le,
  true, Option, subst,
}

-- the samples that pass a test
abbrev pub count_if : (ℤ → Bool) → List ℤ → ℕ
count_if f [] = 0
count_if f (x ∷ xs) = (if f x then 1 else 0) + count_if f xs

abbrev pub AllFrom : ℤ → List ℤ → Type 0
AllFrom z [] = Unit {0}
AllFrom z (x ∷ xs) = (z ≤ℤ x) × AllFrom z xs

abbrev pub Ascends : List ℤ → Type 0
Ascends [] = Unit {0}
Ascends (x ∷ xs) = AllFrom x xs × Ascends xs

AllFrom-trans : (y z : ℤ) (xs : List ℤ) → y ≤ℤ z → AllFrom z xs → AllFrom y xs
AllFrom-trans y z [] h a = tt
AllFrom-trans y z (x ∷ xs) h a = (omega (int_laws, h, a.0), AllFrom-trans y z xs h a.1)

AllFrom-insert : (z x : ℤ) (ys : List ℤ) → z ≤ℤ x → AllFrom z ys → AllFrom z (insert x ys)
AllFrom-insert z x [] h a = (h, tt)
AllFrom-insert z x (y ∷ ys) h a = elim (Bool-cases (leb_ℤ x y)) [
  | inl le ↦ rw le (h, a)
  | inr gt ↦ rw gt (a.0, AllFrom-insert z x ys h a.1)
]

leb_ℤ_false : (x y : ℤ) → leb_ℤ x y ≡ false → y ≤ℤ x
leb_ℤ_false x y h = ground arith

insert-Ascends : (x : ℤ) (ys : List ℤ) → Ascends ys → Ascends (insert x ys)
insert-Ascends x [] s = (tt, tt)
insert-Ascends x (y ∷ ys) s = elim (Bool-cases (leb_ℤ x y)) [
  | inl le ↦ let h = leb_ℤ→le x y le in rw le ((h, AllFrom-trans x y ys h s.0), s)
  | inr gt ↦ rw gt (AllFrom-insert y x ys (leb_ℤ_false x y gt) s.0, insert-Ascends x ys s.1)
]

pub sort-Ascends : (xs : List ℤ) → Ascends (sort xs)
unfolding sort
sort-Ascends [] = tt
sort-Ascends (x ∷ xs) = insert-Ascends x (sort xs) (sort-Ascends xs)

count_if-insert :
    (f : ℤ → Bool) (x : ℤ) (ys : List ℤ) → count_if f (insert x ys) ≡ count_if f (x ∷ ys)
count_if-insert f x [] = refl
count_if-insert f x (y ∷ ys) = elim (Bool-cases (leb_ℤ x y)) [
  | inl le ↦ rw le refl
  | inr gt ↦ rw gt (omega (arith, count_if-insert f x ys))
]

-- The sorted copy has as many samples that pass a test, whatever the test.
pub count_if-sort : (f : ℤ → Bool) (xs : List ℤ) → count_if f (sort xs) ≡ count_if f xs
unfolding sort
count_if-sort f [] = refl
count_if-sort f (x ∷ xs) = omega (arith, count_if-insert f x (sort xs), count_if-sort f xs)

length-insert : (x : ℤ) (ys : List ℤ) → length (insert x ys) ≡ suc (length ys)
length-insert x [] = refl
length-insert x (y ∷ ys) = elim (Bool-cases (leb_ℤ x y)) [
  | inl le ↦ rw le refl
  | inr gt ↦ rw gt (ap suc (length-insert x ys))
]

pub length-sort : (xs : List ℤ) → length (sort xs) ≡ length xs
unfolding sort
length-sort [] = refl
length-sort (x ∷ xs) = length-insert x (sort xs) ∙ ap suc (length-sort xs)

AllFrom-get : (z v : ℤ) (xs : List ℤ) (k : ℕ) → AllFrom z xs → get_elem? xs k ≡ some v → z ≤ℤ v
AllFrom-get z v [] k a h = cc
AllFrom-get z v (x ∷ xs) zero a h = ground arith
AllFrom-get z v (x ∷ xs) (suc k) a h = AllFrom-get z v xs k a.1 h

none_below : (x : ℤ) (xs : List ℤ) → AllFrom x xs → count_if (λ w. ltb_ℤ w x) xs ≡ 0
none_below x [] a = refl
none_below x (y ∷ ys) a =
    let above : ltb_ℤ y x ≡ false = ground arith in rw above (omega (arith, none_below x ys a.1))

leb_ℤ-true : (x y : ℤ) → x ≤ℤ y → leb_ℤ x y ≡ true
leb_ℤ-true x y h = ground arith

ltb_ℤ_self : (x : ℤ) → ltb_ℤ x x ≡ false
ltb_ℤ_self x = ground arith

-- An element is at its place among the others: more samples than its index are at most it, and no more
-- than its index are less.
abbrev pub Stands : List ℤ → ℕ → ℤ → Type 0
Stands s k v = (suc k ≤ count_if (λ w. leb_ℤ w v) s) × (count_if (λ w. ltb_ℤ w v) s ≤ k)

head-Stands : (x : ℤ) (xs : List ℤ) → AllFrom x xs → Stands (x ∷ xs) 0 x
head-Stands x xs a =
    let self = leb_ℤ-true x x (omega int_laws) in
    rw (self, ltb_ℤ_self x) (omega arith, omega (arith, none_below x xs a))

some_inj : {x v : ℤ} → ◌≡◌ {A = Option ℤ} (some x) (some v) → x ≡ v
some_inj h = cc

pub get-Stands : (s : List ℤ) (k : ℕ) (v : ℤ) → Ascends s → get_elem? s k ≡ some v → Stands s k v
get-Stands [] k v a h = cc
get-Stands (x ∷ xs) zero v a h =
    subst (λ v. Stands (x ∷ xs) 0 v) (some_inj h) (head-Stands x xs a.0)
get-Stands (x ∷ xs) (suc k) v a h =
    let (le, lt) = get-Stands xs k v a.1 h in
    let self = leb_ℤ-true x v (AllFrom-get x v xs k a.0 h) in
    rw self (omega (arith, le), ground (arith, lt))
