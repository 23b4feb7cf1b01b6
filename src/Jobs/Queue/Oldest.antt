-- ===== src/Jobs/Queue/Oldest.antt =====
-- The rows of the outbox that a dispatch takes: the oldest of those that wait.
use mathlib.Core.List.Perm
use mathlib.Core.List.{Perm}
use standin_app_server.Prelude.{
  ℕ, zero, suc, ◌≤◌, ◌≡◌, ◌⊎◌, inl, inr, refl, sym, subst, Bool, List, [], ◌∷◌, ◌++◌, arith, ltb,
  none, some, All, take, drop, length, Bool-cases, take-append-drop, length-take,
}
use standin_app_server.Jobs.Rows.{OutboxRow, is_none}
use standin_app_server.Jobs.History.Order.{select, insert_desc, sort_desc, All-insert_desc}
use standin_app_server.Jobs.Queue.{pending}

-- The rows that are not published.
abbrev pub unpublished : List OutboxRow → List OutboxRow
unpublished [] = []
unpublished (o ∷ rows) = elim o.published_at [
  | none ↦ o ∷ unpublished rows
  | some t ↦ unpublished rows
]

abbrev pub IsAscending : List OutboxRow → Type 0
IsAscending [] = Unit
IsAscending (a ∷ rows) = All (λ b. a.created_at ≤ b.created_at) rows × IsAscending rows

pub record IsOldest (limit : ℕ) (outbox rows : List OutboxRow) : Type 0 where
  pub left : List OutboxRow
  pub whole : Perm (rows ++ left) (unpublished outbox)
  pub ordered : IsAscending (rows ++ left)
  pub bounded : length rows ≤ limit
  pub full : (left ≡ []) ⊎ (length rows ≡ limit)

abbrev older : OutboxRow → OutboxRow → Bool
older a b = ltb b.created_at a.created_at

select-unpublished :
    (outbox : List OutboxRow) → select (λ o. is_none o.published_at) outbox ≡ unpublished outbox
unfolding select
select-unpublished [] = refl
select-unpublished (o ∷ rows) = ground (arith, select-unpublished rows)

below :
    (x y : OutboxRow) (ys : List OutboxRow)
    → x.created_at ≤ y.created_at
    → All (λ b. y.created_at ≤ b.created_at) ys
    → All (λ b. x.created_at ≤ b.created_at) ys
below x y [] e h = tt
below x y (z ∷ zs) e (h, hs) = (omega arith, below x y zs e hs)

insert-IsAscending :
    (x : OutboxRow) (ys : List OutboxRow) → IsAscending ys → IsAscending (insert_desc older x ys)
unfolding insert_desc
insert-IsAscending x [] d = (tt, tt)
insert-IsAscending x (y ∷ ys) (h, d) = elim (Bool-cases (older x y)) [
  | inl e ↦
      let up : y.created_at ≤ x.created_at = ground (arith, e) in
      rw e (
        All-insert_desc older (λ b. y.created_at ≤ b.created_at) x ys up h,
        insert-IsAscending x ys d,
      )
  | inr e ↦
      let up : x.created_at ≤ y.created_at = ground (arith, e) in
      rw e ((up, below x y ys up h), (h, d))
]

sort-IsAscending : (xs : List OutboxRow) → IsAscending (sort_desc older xs)
unfolding sort_desc
sort-IsAscending [] = tt
sort-IsAscending (x ∷ xs) = insert-IsAscending x (sort_desc older xs) (sort-IsAscending xs)

insert-perm : (x : OutboxRow) (ys : List OutboxRow) → Perm (insert_desc older x ys) (x ∷ ys)
unfolding insert_desc
insert-perm x [] = Perm.refl _
insert-perm x (y ∷ ys) = elim (Bool-cases (older x y)) [
  | inl e ↦ rw e (Perm.trans (Perm.cons y (insert-perm x ys)) (Perm.swap x y ys))
  | inr e ↦ rw e (Perm.refl _)
]

sort-perm : (xs : List OutboxRow) → Perm (sort_desc older xs) xs
unfolding sort_desc
sort-perm [] = Perm.nil
sort-perm (x ∷ xs) = Perm.trans (insert-perm x (sort_desc older xs)) (Perm.cons x (sort-perm xs))

all_or_full :
    (limit : ℕ) (xs : List OutboxRow) → (drop limit xs ≡ []) ⊎ (length (take limit xs) ≡ limit)
all_or_full zero xs = inr refl
all_or_full (suc n) [] = inl refl
all_or_full (suc n) (x ∷ xs) = elim (all_or_full n xs) [
  | inl e ↦ inl e
  | inr e ↦ inr (omega (arith, e))
]

pub pending-IsOldest :
    (limit : ℕ) (outbox : List OutboxRow) → IsOldest limit outbox (pending limit outbox)
unfolding pending
pending-IsOldest limit outbox =
    let waiting = select (λ o. is_none o.published_at) outbox in
    let sorted = sort_desc older waiting in
    let rejoined = take-append-drop limit sorted in
    record {
      left = drop limit sorted;
      whole =
          subst (λ x. Perm x (unpublished outbox)) (sym rejoined)
            (subst (λ x. Perm sorted x) (select-unpublished outbox) (sort-perm waiting));
      ordered = subst IsAscending (sym rejoined) (sort-IsAscending waiting);
      bounded = omega (arith, length-take limit sorted);
      full = all_or_full limit sorted;
    }
