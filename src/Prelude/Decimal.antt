-- ===== src/Prelude/Decimal.antt =====
-- `String(n)` of a natural number: its decimal digits, and that they determine it.
use Prim.Native.Nat.{ℕ, zero, suc, ◌+◌, ◌-◌, ◌*◌, ◌/◌, ◌%◌, ◌<◌}
use mathlib.Core.Path.{◌≡◌, refl, sym, ap, ◌∙◌}
use mathlib.Core.List.{List, [], ◌∷◌}
use mathlib.Core.Logic.{inl, inr}
use native.Mathlib.Omega.{arith}
use standin_app_server.Prelude.Tests.{ltb, if◌then◌else◌, Bool-cases}

-- The character of the last digit.
abbrev pub digit : ℕ → ℕ
digit n = n % 10 + b'0'

decimal_from : ℕ → ℕ → List ℕ → List ℕ
decimal_from zero n acc = acc
decimal_from (suc f) n acc =
    let rest = decimal_from f (n / 10) (digit n ∷ acc) in if ltb n 10 then digit n ∷ acc else rest

unfoldable pub decimal : ℕ → List ℕ
unfolding decimal_from
decimal n = decimal_from (suc n) n []

read_from : ℕ → List ℕ → ℕ
read_from n [] = n
read_from n (c ∷ cs) = read_from (n * 10 + (c - b'0')) cs

read_from-decimal_from :
    (f n : ℕ) (acc : List ℕ) → n < f → read_from 0 (decimal_from f n acc) ≡ read_from n acc
unfolding decimal_from read_from
read_from-decimal_from zero n acc h = elim h [ ]
read_from-decimal_from (suc f) n acc h = elim (Bool-cases (ltb n 10)) [
  | inl e ↦ rw e (ap (λ k. read_from k acc) (ground arith))
  | inr e ↦ rw e (
      read_from-decimal_from f (n / 10) (digit n ∷ acc) (ground arith)
      ∙ ap (λ k. read_from k acc) (omega arith))
]

pub decimal-injective : (m n : ℕ) → decimal m ≡ decimal n → m ≡ n
unfolding decimal read_from
decimal-injective m n h =
    sym (read_from-decimal_from (suc m) m [] (omega arith))
    ∙ ap (read_from 0) h
    ∙ read_from-decimal_from (suc n) n [] (omega arith)

test_decimal : decimal 1604 ≡ b'1' ∷ b'6' ∷ b'0' ∷ b'4' ∷ []
unfolding decimal
test_decimal = refl
