-- ===== src/Discovery/Sorted.antt =====
-- internal/discovery/etcd/resolver.go: the addresses in ascending order, which do not depend on the order
-- in which the range over the map visits them.
use mathlib.Core.List.{Permᴰ}
use mathlib.Core.Path.{refl}
use seckill.Prelude.{◌∙◌, String, List, Bool, ◌∷◌, ◌≡◌, false, if◌then◌else◌, true, [], arith}

-- Go's order on strings.
pub record StringOrder : Type 0 where
  pub le : String → String → Bool
  pub total : (a b : String) → le a b ≡ false → le b a ≡ true
  pub trans : (a b c : String) → le a b ≡ true → le b c ≡ true → le a c ≡ true
  pub antisymm : (a b : String) → le a b ≡ true → le b a ≡ true → a ≡ b

module _ (O : StringOrder) where
  abbrev pub put : String → List String → List String
  put x [] = x ∷ []
  put x (y ∷ ys) = let rest = put x ys in if O.le x y then x ∷ y ∷ ys else y ∷ rest

  -- `sort.Strings`
  unfoldable pub sort : List String → List String
  sort [] = []
  sort (x ∷ xs) = put x (sort xs)

  pub put_comm : (x y : String) (ys : List String) → put x (put y ys) ≡ put y (put x ys)
  put_comm x y [] = ground (arith, O.total x y, O.total y x, O.antisymm x y)
  put_comm x y (z ∷ zs) = ground (
    arith,
    O.total x y,
    O.total y x,
    O.antisymm x y,
    O.trans x y z,
    O.trans y x z,
    O.total x z,
    O.total y z,
    O.trans y z x,
    O.trans x z y,
    put_comm x y zs,
  )

  -- The state that is handed out does not depend on the order in which the map is ranged over.
  sort-perm : {xs ys : List String} → Permᴰ xs ys → sort xs ≡ sort ys
  unfolding sort
  sort-perm Permᴰ.nil = refl
  sort-perm (Permᴰ.cons e d) = λ i. put (e i) (sort-perm d i)
  sort-perm (Permᴰ.swap {a} {b} {l = l} e f) =
      put_comm a b (sort l) ∙ (λ i. put (f i) (put (e i) (sort l)))
  sort-perm (Permᴰ.trans d e) = sort-perm d ∙ sort-perm e
