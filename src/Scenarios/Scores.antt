-- ===== src/Scenarios/Scores.antt =====
-- A sorted set held in memory: what the interface of Expire.Index asks for can be had.
use seckill.Scenarios.Memory.{chosen, chosen_yes, chosen_no}
use seckill.Prelude.{
  string_dec, leb, suc, ◌<◌, Bool-cases, sym, ◌≤◌, [], ◌∙◌, inl, arith, inr, ap, leb→le,
  length-take, zero, refl, subst,
}
use seckill.Expire.Index.{SortedSet}
use seckill.Prelude.{
  String, ℕ, List, Option, none, Bool, ◌≡◌, ◌≢◌, length, ◌∷◌, IsIn, false, if◌then◌else◌, take,
  true, some,
}

abbrev pub Entries : Type 0
Entries = List (String × ℕ)

abbrev pub lookup : Entries → String → Option ℕ
lookup [] x = none
lookup ((y, t) ∷ s) x = chosen (string_dec x y) (some t) (lookup s x)

abbrev pub remove : Entries → String → Entries
remove [] x = []
remove ((y, t) ∷ s) x = let rest = remove s x in chosen (string_dec x y) rest ((y, t) ∷ rest)

abbrev pub is_some_le : Option ℕ → ℕ → Bool
is_some_le none now = false
is_some_le (some t) now = leb t now

abbrev pub due_keys : Entries → ℕ → Entries → List String
due_keys all now [] = []
due_keys all now ((y, t) ∷ s) =
    let rest = due_keys all now s in if is_some_le (lookup all y) now then y ∷ rest else rest

pub lookup-remove_self : (s : Entries) (x : String) → lookup (remove s x) x ≡ none
lookup-remove_self [] x = refl
lookup-remove_self ((y, t) ∷ s) x = elim (string_dec x y) [
  | yes e ↦
      rw (chosen_yes (string_dec x y) (remove s x) ((y, t) ∷ remove s x) e) (lookup-remove_self s x)
  | no ne ↦
      rw (chosen_no (string_dec x y) (remove s x) ((y, t) ∷ remove s x) ne)
        (chosen_no (string_dec x y) (some t) (lookup (remove s x) x) ne ∙ lookup-remove_self s x)
]

pub lookup-remove_ne : (s : Entries) (x y : String) → x ≢ y → lookup (remove s y) x ≡ lookup s x
lookup-remove_ne [] x y h = refl
lookup-remove_ne ((z, t) ∷ s) x y h = elim (string_dec y z) [
  | yes e ↦ rw (chosen_yes (string_dec y z) (remove s y) ((z, t) ∷ remove s y) e) (
      lookup-remove_ne s x y h
      ∙ sym (chosen_no (string_dec x z) (some t) (lookup s x) (λ f. h (f ∙ sym e))))
  | no ne ↦
      rw (chosen_no (string_dec y z) (remove s y) ((z, t) ∷ remove s y) ne)
        (ap (chosen (string_dec x z) (some t)) (lookup-remove_ne s x y h))
]

pub IsIn-take : (n : ℕ) (xs : List String) (x : String) → IsIn x (take n xs) → IsIn x xs
IsIn-take zero xs x h = absurd h
IsIn-take (suc n) [] x h = h
IsIn-take (suc n) (y ∷ xs) x (inl e) = inl e
IsIn-take (suc n) (y ∷ xs) x (inr h) = inr (IsIn-take n xs x h)

pub take_all : (n : ℕ) (xs : List String) → length (take n xs) < n → take n xs ≡ xs
take_all zero xs h = absurd (omega arith)
take_all (suc n) [] h = refl
take_all (suc n) (y ∷ xs) h = ap (λ l. y ∷ l) (take_all n xs (omega arith))

pub due_keys-due :
    (all : Entries) (now : ℕ) (s : Entries) (x : String)
    → IsIn x (due_keys all now s)
    → is_some_le (lookup all x) now ≡ true
due_keys-due all now [] x h = absurd h
due_keys-due all now ((y, t) ∷ s) x h = elim (Bool-cases (is_some_le (lookup all y) now)) [
  | inr no_ ↦ due_keys-due all now s x (rw no_ at h)
  | inl yes_ ↦ elim (rw yes_ at h) [
    | inl e ↦ ap (λ z. is_some_le (lookup all z) now) e ∙ yes_
    | inr i ↦ due_keys-due all now s x i
  ]
]

pub IsIn-due_keys :
    (all : Entries) (now : ℕ) (s : Entries) (x : String) (t : ℕ)
    → lookup s x ≡ some t
    → is_some_le (lookup all x) now ≡ true
    → IsIn x (due_keys all now s)
IsIn-due_keys all now [] x t e h = cc
IsIn-due_keys all now ((y, u) ∷ s) x t e h = elim (string_dec x y) [
  | yes same ↦ rw (sym (ap (λ z. is_some_le (lookup all z) now) same) ∙ h) (inl same)
  | no ne ↦
      let rest =
        IsIn-due_keys all now s x t (sym (chosen_no (string_dec x y) (some u) (lookup s x) ne) ∙ e)
          h in
      elim (Bool-cases (is_some_le (lookup all y) now)) [
        | inl yes_ ↦ rw yes_ (inr rest)
        | inr no_ ↦ rw no_ rest
      ]
]

pub some_le :
    (o : Option ℕ) (now : ℕ) → is_some_le o now ≡ true → (t : ℕ) × (o ≡ some t) × (t ≤ now)
some_le none now h = cc
some_le (some t) now h = (t, refl, leb→le t now h)

pub le_some : (o : Option ℕ) (now t : ℕ) → o ≡ some t → t ≤ now → is_some_le o now ≡ true
le_some o now t e h = rw e (ground arith)

abbrev pub scores : SortedSet
scores = record {
  State = Entries;
  score = lookup;
  add = λ s x t. (x, t) ∷ remove s x;
  rem = remove;
  range = λ s now n. take n (due_keys s now s);
  score-add_self = λ s x t. chosen_yes (string_dec x x) (some t) (lookup (remove s x) x) refl;
  score-add_ne = λ s x y t ne.
      chosen_no (string_dec x y) (some t) (lookup (remove s y) x) ne ∙ lookup-remove_ne s x y ne;
  score-rem_self = lookup-remove_self;
  score-rem_ne = lookup-remove_ne;
  range_due = λ s now n x h. some_le _ now (due_keys-due s now s x (IsIn-take n _ x h));
  range_short = λ s now n. omega (arith, length-take n (due_keys s now s));
  range_full = λ s now n x t few e h.
      subst (IsIn x) (sym (take_all n _ few)) (IsIn-due_keys s now s x t e (le_some _ now t e h));
}
