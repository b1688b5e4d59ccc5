-- ===== src/Prelude/Int.antt =====
-- Go's signed integers, as far as the services look at them: a sign and a size.
use Prim.Native.Nat.{ℕ, zero, suc}
use smusic.Prelude.Tests.{ltb}
use mathlib.Core.Bool.{Bool, true, false}

-- `negsuc n` is -(n + 1).
pub data ℤ : Type 0 where
  pos : ℕ → ℤ
  negsuc : ℕ → ℤ

abbrev pub is_negative : ℤ → Bool
is_negative (pos n) = false
is_negative (negsuc n) = true

abbrev pub is_positive : ℤ → Bool
is_positive (pos zero) = false
is_positive (pos (suc n)) = true
is_positive (negsuc n) = false

-- Whether a number is at least -half and less than half: the range of a column.
abbrev pub fits : ℕ → ℤ → Bool
fits half (pos n) = ltb n half
fits half (negsuc n) = ltb n half
