-- ===== src/Jobs/History/Order.antt =====
-- Rows in the order of ORDER BY ... DESC, and a part of them after a row.
use standin_app_server.Prelude.{
  ℕ, zero, suc, ◌≤◌, ◌≡◌, ◌⊎◌, inl, inr, refl, Bool, true, false, ◌&&◌, List, [], ◌∷◌, arith,
  if◌then◌else◌, none, some, All, Bool-cases, Option-cases, subst, take, drop, length,
}
use standin_app_server.Jobs.History.{last}

unfoldable pub select {ℓ} : {A : Type ℓ} → (A → Bool) → List A → List A
select test [] = []
select test (a ∷ rows) = let rest = select test rows in if test a then a ∷ rest else rest

unfoldable pub insert_desc {ℓ} : {A : Type ℓ} → (A → A → Bool) → A → List A → List A
insert_desc lt x [] = x ∷ []
insert_desc lt x (y ∷ ys) =
    let rest = insert_desc lt x ys in if lt x y then y ∷ rest else x ∷ y ∷ ys

unfoldable pub sort_desc {ℓ} : {A : Type ℓ} → (A → A → Bool) → List A → List A
sort_desc lt [] = []
sort_desc lt (x ∷ xs) = insert_desc lt x (sort_desc lt xs)

module _ {A : Type 0} where
  pub select-select :
      (p q : A → Bool) (xs : List A) → select q (select p xs) ≡ select (λ a. p a && q a) xs
  unfolding select
  select-select p q [] = refl
  select-select p q (x ∷ xs) = ground (arith, select-select p q xs)

  pub select-imp :
      (p q : A → Bool) (xs : List A)
      → ((a : A) → q a ≡ true → p a ≡ true)
      → select q (select p xs) ≡ select q xs
  unfolding select
  select-imp p q [] h = refl
  select-imp p q (x ∷ xs) h = elim (Bool-cases (q x)) [
    | inl e ↦ ground (arith, e, h x e, select-imp p q xs h)
    | inr e ↦ ground (arith, e, select-imp p q xs h)
  ]

  pub All-select : (p : A → Bool) (xs : List A) → All (λ a. p a ≡ true) (select p xs)
  unfolding select
  All-select p [] = tt
  All-select p (x ∷ xs) = elim (Bool-cases (p x)) [
    | inl e ↦ rw e (e, All-select p xs)
    | inr e ↦ rw e (All-select p xs)
  ]

  pub All-select_of : (P : A → Type 0) (p : A → Bool) (xs : List A) → All P xs → All P (select p xs)
  unfolding select
  All-select_of _ p [] h = tt
  All-select_of _ p (x ∷ xs) (h, hs) = elim (Bool-cases (p x)) [
    | inl e ↦ rw e (h, All-select_of _ p xs hs)
    | inr e ↦ rw e (All-select_of _ p xs hs)
  ]

  pub All-last_take :
      (P : A → Type 0) (n : ℕ) (xs : List A) (a : A) → All P xs → last (take n xs) ≡ some a → P a
  unfolding last
  All-last_take _ zero xs a h e = cc
  All-last_take _ (suc n) [] a h e = cc
  All-last_take P (suc n) (x ∷ xs) a (h, hs) e = elim (Option-cases (last (take n xs))) [
    | inl missing ↦ subst P (ground (arith, missing, e)) h
    | inr (b, here) ↦ All-last_take _ n xs a hs (ground (arith, here, e))
  ]

  pub length-select : (p : A → Bool) (xs : List A) → length (select p xs) ≤ length xs
  unfolding select
  length-select p [] = omega arith
  length-select p (x ∷ xs) = ground (arith, length-select p xs)

  last-none : (xs : List A) → last xs ≡ none → xs ≡ []
  unfolding last
  last-none [] e = refl
  last-none (x ∷ xs) e = elim (Option-cases (last xs)) [
    | inl missing ↦ absurd (ground (arith, missing, e))
    | inr (b, here) ↦ absurd (ground (arith, here, e))
  ]

  take_nothing : (n : ℕ) (xs : List A) → take n xs ≡ [] → drop n xs ≡ xs
  take_nothing zero xs e = refl
  take_nothing (suc n) [] e = refl
  take_nothing (suc n) (x ∷ xs) e = cc

module _ {A : Type 0} (lt : A → A → Bool) where
  -- Each row comes before all that follow it.
  abbrev pub IsDescending : List A → Type 0
  IsDescending [] = Unit
  IsDescending (a ∷ rows) = All (λ b. lt b a ≡ true) rows × IsDescending rows

  abbrev pub Apart : A → A → Type 0
  Apart a b = (lt a b ≡ true) ⊎ (lt b a ≡ true)

  abbrev pub AllApart : List A → Type 0
  AllApart [] = Unit
  AllApart (a ∷ rows) = All (Apart a) rows × AllApart rows

  pub All-insert_desc :
      (P : A → Type 0) (x : A) (ys : List A) → P x → All P ys → All P (insert_desc lt x ys)
  unfolding insert_desc
  All-insert_desc _ x [] p h = (p, tt)
  All-insert_desc _ x (y ∷ ys) p (h, hs) = elim (Bool-cases (lt x y)) [
    | inl e ↦ rw e (h, All-insert_desc _ x ys p hs)
    | inr e ↦ rw e (p, (h, hs))
  ]

  pub All-sort_desc : (P : A → Type 0) (xs : List A) → All P xs → All P (sort_desc lt xs)
  unfolding sort_desc
  All-sort_desc _ [] h = tt
  All-sort_desc _ (x ∷ xs) (h, hs) = All-insert_desc _ x (sort_desc lt xs) h (All-sort_desc _ xs hs)

  length-insert_desc : (x : A) (ys : List A) → length (insert_desc lt x ys) ≡ suc (length ys)
  unfolding insert_desc
  length-insert_desc x [] = refl
  length-insert_desc x (y ∷ ys) = ground (arith, length-insert_desc x ys)

  pub length-sort_desc : (xs : List A) → length (sort_desc lt xs) ≡ length xs
  unfolding sort_desc
  length-sort_desc [] = refl
  length-sort_desc (x ∷ xs) =
      omega (arith, length-insert_desc x (sort_desc lt xs), length-sort_desc xs)

  module _ (trans : (a b c : A) → lt a b ≡ true → lt b c ≡ true → lt a c ≡ true) where
    below :
        (x y : A) (ys : List A)
        → lt y x ≡ true
        → All (λ b. lt b y ≡ true) ys
        → All (λ b. lt b x ≡ true) ys
    below x y [] e h = tt
    below x y (z ∷ zs) e (h, hs) = (trans z y x h e, below x y zs e hs)

    insert_desc-IsDescending :
        (x : A) (ys : List A)
        → All (Apart x) ys
        → IsDescending ys
        → IsDescending (insert_desc lt x ys)
    unfolding insert_desc
    insert_desc-IsDescending x [] a d = (tt, tt)
    insert_desc-IsDescending x (y ∷ ys) (a, as_apart) (h, d) = elim (Bool-cases (lt x y)) [
      | inl e ↦ rw e (All-insert_desc _ x ys e h, insert_desc-IsDescending x ys as_apart d)
      | inr e ↦
          let up : lt y x ≡ true = elim a [ inl l ↦ absurd (cc (l, e)) | inr g ↦ g ] in
          rw e ((up, below x y ys up h), (h, d))
    ]

    pub sort_desc-IsDescending : (xs : List A) → AllApart xs → IsDescending (sort_desc lt xs)
    unfolding sort_desc
    sort_desc-IsDescending [] a = tt
    sort_desc-IsDescending (x ∷ xs) (a, h) =
        insert_desc-IsDescending x (sort_desc lt xs) (All-sort_desc _ xs a)
          (sort_desc-IsDescending xs h)

  pub select-IsDescending :
      (p : A → Bool) (xs : List A) → IsDescending xs → IsDescending (select p xs)
  unfolding select
  select-IsDescending p [] d = tt
  select-IsDescending p (x ∷ xs) (h, d) = elim (Bool-cases (p x)) [
    | inl e ↦ rw e (All-select_of _ p xs h, select-IsDescending p xs d)
    | inr e ↦ rw e (select-IsDescending p xs d)
  ]

  select-All : (p : A → Bool) (xs : List A) → All (λ b. p b ≡ true) xs → select p xs ≡ xs
  unfolding select
  select-All p [] h = refl
  select-All p (x ∷ xs) (h, hs) = rw (h, select-All p xs hs)

  -- What comes after the last of the first n rows is the rest.
  pub select-after_last :
      (irrefl : (a : A) → lt a a ≡ false)
      (trans : (a b c : A) → lt a b ≡ true → lt b c ≡ true → lt a c ≡ true) (n : ℕ) (xs : List A)
      (a : A)
      → IsDescending xs
      → last (take n xs) ≡ some a
      → select (λ b. lt b a) xs ≡ drop n xs
  unfolding last select
  select-after_last irrefl trans zero xs a d e = cc
  select-after_last irrefl trans (suc n) [] a d e = cc
  select-after_last irrefl trans (suc n) (x ∷ xs) a (h, d) e =
      elim (Option-cases (last (take n xs))) [
        | inl missing ↦
            let same : x ≡ a = ground (arith, missing, e) in
            let all = select-All (λ b. lt b x) xs h in
            subst (λ z. select (λ b. lt b z) (x ∷ xs) ≡ drop n xs) same
              (rw (irrefl x, all, take_nothing n xs (last-none (take n xs) missing)))
        | inr (b, here) ↦
            let e' : last (take n xs) ≡ some a = ground (arith, here, e) in
            let under : lt a x ≡ true = All-last_take _ n xs a h e' in
            let not_over : lt x a ≡ false = elim (Bool-cases (lt x a)) [
              | inl over ↦ absurd (cc (trans x a x over under, irrefl x))
              | inr n ↦ n
            ] in
            rw not_over (select-after_last irrefl trans n xs a d e')
      ]
