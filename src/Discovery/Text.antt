-- ===== src/Discovery/Text.antt =====
-- Go's order on strings: the order of their bytes in UTF-8, which is that of their characters' numbers.
use seckill.Prelude.{Bool, ◌≡◌, true, false, if◌then◌else◌, arith, ltb, refl}
use Prim.Native.String.{String, [], ◌∷◌}
use Prim.Native.Char.{code}
use text.Mathlib.TextEquality.{Char-path}
use seckill.Discovery.Sorted.{StringOrder}

le_text : String → String → Bool
le_text [] t = true
le_text (c ∷ s) [] = false
le_text (c ∷ s) (d ∷ t) =
    let rest = le_text s t in
    if ltb (code c) (code d) then true else (if ltb (code d) (code c) then false else rest)

le_text_total : (s t : String) → le_text s t ≡ false → le_text t s ≡ true
unfolding le_text
le_text_total [] t h = cc
le_text_total (c ∷ s) [] h = refl
le_text_total (c ∷ s) (d ∷ t) h = ground (arith, le_text_total s t)

le_text_trans : (s t u : String) → le_text s t ≡ true → le_text t u ≡ true → le_text s u ≡ true
unfolding le_text
le_text_trans [] t u h k = refl
le_text_trans (c ∷ s) [] u h k = cc
le_text_trans (c ∷ s) (d ∷ t) [] h k = cc
le_text_trans (c ∷ s) (d ∷ t) (e ∷ u) h k = ground (arith, le_text_trans s t u)

le_text_antisymm : (s t : String) → le_text s t ≡ true → le_text t s ≡ true → s ≡ t
unfolding le_text
le_text_antisymm [] [] h k = refl
le_text_antisymm [] (d ∷ t) h k = cc
le_text_antisymm (c ∷ s) [] h k = cc
le_text_antisymm (c ∷ s) (d ∷ t) h k =
    let (same, rest) : (code c ≡ code d) × (s ≡ t) = ground (arith, le_text_antisymm s t) in
    λ i. Char-path c d same i ∷ rest i

pub text_order : StringOrder
text_order = record {
  le = le_text;
  total = le_text_total;
  trans = le_text_trans;
  antisymm = le_text_antisymm;
}
