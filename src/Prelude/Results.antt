-- ===== src/Prelude/Results.antt =====
-- Code that ends with a value or throws.
use mathlib.Core.Path.{◌≡◌, refl}
use mathlib.Core.Bool.{Bool, true, false}
use mathlib.Core.Logic.{◌⊎◌, inl, inr}

pub data Tried {ℓ} (E : Type ℓ) (A : Type ℓ) : Type ℓ where
  done : A → Tried E A
  thrown : E → Tried E A

infixl 5 ◌>>=◌ ◌>>◌
abbrev pub ◌>>=◌ {ℓ} : {E A B : Type ℓ} → Tried E A → (A → Tried E B) → Tried E B
done a >>= f = f a
thrown e >>= f = thrown e

abbrev pub ◌>>◌ {ℓ} : {E A B : Type ℓ} → Tried E A → Tried E B → Tried E B
m >> k = m >>= λ _. k

-- `if (test) throw e;`
abbrev pub throw_if : {E : Type 0} → Bool → E → Tried E (Unit {0})
throw_if true e = thrown e
throw_if false e = done tt

pub Tried-cases :
    {E A : Type 0} (t : Tried E A) → ((a : A) × (t ≡ done a)) ⊎ ((e : E) × (t ≡ thrown e))
Tried-cases (done a) = inl (a, refl)
Tried-cases (thrown e) = inr (e, refl)

module _ {E A B : Type 0} where
  -- A run that ends with a value ran its first part to a value.
  pub >>=-eq-done :
      (m : Tried E A) (f : A → Tried E B) (b : B)
      → (m >>= f) ≡ done b
      → (a : A) × (m ≡ done a) × (f a ≡ done b)
  >>=-eq-done (done a) f b h = (a, refl, h)
  >>=-eq-done (thrown e) f b h = cc

pub done-inj : {E A : Type 0} (a b : A) → ◌≡◌ {A = Tried E A} (done a) (done b) → a ≡ b
done-inj a b h = cc
