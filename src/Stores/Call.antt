-- ===== src/Stores/Call.antt =====
-- A call over the network: it is made and answered, or it is not made, or it is made and the answer
-- is lost. The caller sees an error in both of the last cases.
use seckill.Errors.{Error, Result, ok, err}

pub data Fate : Type 0 where
  answered : Fate
  not_made : Error → Fate
  answer_lost : Error → Fate

-- What the store holds after the call, and what the caller sees.
unfoldable pub call {ℓ} : {S A : Type ℓ} → Fate → (S → S × A) → S → S × Result A
call answered f s = let (t, a) = f s in (t, ok a)
call (not_made e) f s = (s, err e)
call (answer_lost e) f s = let (t, a) = f s in (t, err e)
