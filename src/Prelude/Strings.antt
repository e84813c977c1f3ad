-- ===== src/Prelude/Strings.antt =====
-- Equality of strings is decided.
use Prim.Native.String.{String}
use mathlib.Core.Logic.{inl, inr}
use seckill.Prelude.Tests.{Bool-cases}
use text.Mathlib.Text.{◌==◌ as str_eq}
use text.Mathlib.TextEquality.{eq_iff}

pub string_dec : Discrete String
string_dec a b = elim (Bool-cases (str_eq a b)) [
  | inl same ↦ yes ((eq_iff a b).0 same)
  | inr apart ↦ no (λ e. cc ((eq_iff a b).1 e))
]
