-- ===== src/Jobs/History/Prefixes.antt =====
-- Prefixes of lists, their last elements, and maps.
use standin_app_server.Prelude.{
  ℕ, zero, suc, ◌≤◌, ◌<◌, ◌≡◌, inl, inr, refl, List, [], ◌∷◌, ◌++◌, map, arith, none, some,
  Option-cases, take, length,
}
use standin_app_server.Jobs.History.{last}

module _ {A B : Type 0} (f : A → B) where
  pub take-map : (n : ℕ) (xs : List A) → take n (map f xs) ≡ map f (take n xs)
  take-map zero xs = refl
  take-map (suc n) [] = refl
  take-map (suc n) (x ∷ xs) = rw (take-map n xs)

  pub map-append : (xs ys : List A) → map f (xs ++ ys) ≡ map f xs ++ map f ys
  map-append [] ys = refl
  map-append (x ∷ xs) ys = rw (map-append xs ys)

  pub last-map : (xs : List A) (a : A) → last xs ≡ some a → last (map f xs) ≡ some (f a)
  unfolding last
  last-map [] a e = cc
  last-map (x ∷ []) a e = ground (arith, e)
  last-map (x ∷ y ∷ ys) a e = elim (Option-cases (last (y ∷ ys))) [
    | inl missing ↦ ground (arith, last-map (y ∷ ys) a, e)
    | inr (b, here) ↦ ground (arith, last-map (y ∷ ys) a, here, e)
  ]

module _ {A : Type 0} where
  pub take-take_more : (n m : ℕ) (xs : List A) → n ≤ m → take n (take m xs) ≡ take n xs
  take-take_more zero m xs h = refl
  take-take_more (suc n) zero xs h = absurd (omega arith)
  take-take_more (suc n) (suc m) [] h = refl
  take-take_more (suc n) (suc m) (x ∷ xs) h = rw (take-take_more n m xs (omega arith))

  pub last-take :
      (n : ℕ) (xs : List A) → 0 < n → n ≤ length xs → (a : A) × (last (take n xs) ≡ some a)
  unfolding last
  last-take zero xs p h = absurd (omega arith)
  last-take (suc n) [] p h = absurd (omega arith)
  last-take (suc n) (x ∷ xs) p h =
      elim (last (take n xs))
        as (λ o. (a : A) × ((elim o [ none ↦ some x | some b ↦ some b ]) ≡ some a)) [
          | none ↦ (x, refl)
          | some b ↦ (b, refl)
        ]

  pub take_all : (n : ℕ) (xs : List A) → length xs ≤ n → take n xs ≡ xs
  take_all zero [] h = refl
  take_all zero (x ∷ xs) h = absurd (omega arith)
  take_all (suc n) [] h = refl
  take_all (suc n) (x ∷ xs) h = rw (take_all n xs (omega arith))
