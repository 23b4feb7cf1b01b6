-- ===== src/Prelude/Int.antt =====
-- Integers over the native numbers, for the signed values of the code.
use Prim.Native.Nat.{ℕ, suc, ◌+◌, ◌-◌}
use mathlib.Core.Bool.{Bool}
use standin_app_server.Prelude.Tests.{if◌then◌else◌, leb, ltb}

-- `negsuc n` is -(n + 1).
pub data ℤ : Type 0 where
  pos : ℕ → ℤ
  negsuc : ℕ → ℤ

abbrev pub pos_part : ℤ → ℕ
pos_part (pos n) = n
pos_part (negsuc n) = 0

abbrev pub neg_part : ℤ → ℕ
neg_part (pos n) = 0
neg_part (negsuc n) = suc n

-- a - b
abbrev pub sub_ℕ : ℕ → ℕ → ℤ
sub_ℕ a b = if leb b a then pos (a - b) else negsuc (b - a - 1)

unfoldable pub leb_ℤ : ℤ → ℤ → Bool
leb_ℤ a b = leb (pos_part a + neg_part b) (pos_part b + neg_part a)

unfoldable pub ltb_ℤ : ℤ → ℤ → Bool
ltb_ℤ a b = ltb (pos_part a + neg_part b) (pos_part b + neg_part a)

-- b - a, or 0 where a is greater.
unfoldable pub above : ℤ → ℤ → ℕ
above a b = (pos_part b + neg_part a) - (pos_part a + neg_part b)

-- a + n
unfoldable pub plus_ℕ : ℤ → ℕ → ℤ
plus_ℕ a n = sub_ℕ (pos_part a + n) (neg_part a)

-- |a - b|
unfoldable pub distance : ℤ → ℤ → ℕ
distance a b = above a b + above b a
