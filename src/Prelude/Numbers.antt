-- ===== src/Prelude/Numbers.antt =====
-- What `Number(text)` gives where the code only asks for integers: an integer, or anything else (a
-- fraction, NaN, an infinity).
use Prim.Native.Nat.{ℕ}

pub data Number : Type 0 where
  not_integer : Number
  negative : ℕ → Number
  integer : ℕ → Number
