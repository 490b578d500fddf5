-- ===== src/Base/Int.antt =====
-- Signed integers over the native numbers: C's `int` where the code is signed.
use Prim.Native.Nat.{ℕ, suc, ◌+◌, ◌-◌, ◌%◌}
use mathlib.Core.Bool.{Bool}
use ktux.Base.Tests.{ltb, leb, if◌then◌else◌}
use ktux.Base.Words.{u32_mod}

-- `negsuc n` is -(n + 1).
pub data ℤ : Type 0 where
  pos : ℕ → ℤ
  negsuc : ℕ → ℤ

abbrev pub pos_part : ℤ → ℕ
pos_part (pos n) = n
pos_part (negsuc n) = 0

abbrev pub neg_part : ℤ → ℕ
neg_part (pos n) = 0
neg_part (negsuc n) = suc n

-- a - b, as an integer.
abbrev pub sub_ℕ : ℕ → ℕ → ℤ
sub_ℕ a b = if leb b a then pos (a - b) else negsuc (b - a - 1)

infixl 65 ◌-ℤ◌
abbrev pub ◌-ℤ◌ : ℤ → ℤ → ℤ
a -ℤ b = sub_ℕ (pos_part a + neg_part b) (neg_part a + pos_part b)

abbrev pub ltb_ℤ : ℤ → ℤ → Bool
ltb_ℤ a b = ltb (pos_part a + neg_part b) (pos_part b + neg_part a)

-- The conversion of an `int` to `unsigned int`.
abbrev pub to_u32 : ℤ → ℕ
to_u32 (pos n) = n % u32_mod
to_u32 (negsuc n) = u32_mod - 1 - n % u32_mod
