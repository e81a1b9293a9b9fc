-- ===== src/Common/Int.antt =====
-- Signed integers over the native numbers, for Go's int64 fields.
use Prim.Native.Nat.{ℕ, suc, ◌+◌, ◌-◌, ◌%◌, ◌^◌}
use mathlib.Core.Bool.{Bool, not, ◌&&◌}
use icinga_kubernetes.Common.Tests.{ltb, if◌then◌else◌}

-- `negsuc n` is -(n + 1).
pub data ℤ : Type 0 where
  pos : ℕ → ℤ
  negsuc : ℕ → ℤ

abbrev pub pos_part : ℤ → ℕ
pos_part (pos n) = n
pos_part (negsuc n) = 0

abbrev pub neg_part : ℤ → ℕ
neg_part (pos n) = 0
neg_part (negsuc n) = suc n

abbrev pub ltb_ℤ : ℤ → ℤ → Bool
ltb_ℤ a b = ltb (pos_part a + neg_part b) (pos_part b + neg_part a)

abbrev pub is_zero_ℤ : ℤ → Bool
is_zero_ℤ a = not (ltb_ℤ a (pos 0)) && not (ltb_ℤ (pos 0) a)

-- int64 addition, with its wrap-around: the residue of a number, and the number of a residue.
abbrev residue : ℤ → ℕ
residue a = (pos_part a + (2 ^ 64 - neg_part a)) % 2 ^ 64

abbrev of_residue : ℕ → ℤ
of_residue r = if ltb r (2 ^ 63) then pos r else negsuc (2 ^ 64 - r - 1)

abbrev pub add_int64 : ℤ → ℤ → ℤ
add_int64 a b = of_residue ((residue a + residue b) % 2 ^ 64)
