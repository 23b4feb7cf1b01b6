-- ===== src/Jobs/Selections/Lookups.antt =====
-- The row of a key after the statements on confirmed_selections.
use standin_app_server.Prelude.{
  ℕ, ◌≡◌, ◌≢◌, refl, true, false, not, ◌&&◌, List, [], ◌∷◌, arith, if◌then◌else◌, ◌==◌, String,
  Option, none, some,
}
use standin_app_server.Jobs.Rows.{same}
use standin_app_server.Jobs.Tables.{SelectionRow}
use standin_app_server.Jobs.Lifecycle.{delete_where}
use standin_app_server.Jobs.Selections.{
  Validated, has_person, is_of, upsert_selection, selection_row, upsert_all, delete_others,
}

-- SELECT of the row of a key.
unfoldable pub selection_of : String → ℕ → List SelectionRow → Option SelectionRow
selection_of id i [] = none
selection_of id i (r ∷ rs) =
    let rest = selection_of id i rs in
    if same r.job_id id && (r.person_index == i) then some r else rest

unfoldable pub newest : ℕ → List Validated → Option Validated
newest i [] = none
newest i (v ∷ vs) = elim (newest i vs) [
  | some w ↦ some w
  | none ↦ if v.person_index == i then some v else none
]

abbrev pub or_row :
    String → String → ℕ → Option Validated → Option SelectionRow → Option SelectionRow
or_row installation id now none r = r
or_row installation id now (some v) r = some (selection_row installation id now v)

is_of-same :
    (k : String) (i : ℕ) (a b : SelectionRow)
    → is_of a.job_id a.person_index b ≡ true
    → is_of k i b ≡ is_of k i a
unfolding is_of
is_of-same k i a b e = ground arith

is_of-apart :
    (k : String) (i : ℕ) (a b : SelectionRow)
    → is_of a.job_id a.person_index b ≡ false
    → is_of k i b ≡ true
    → is_of k i a ≡ false
unfolding is_of
is_of-apart k i a b e here = ground arith

selection_of-upsert_selection :
    (k : String) (i : ℕ) (row : SelectionRow) (rows : List SelectionRow)
    → selection_of k i (upsert_selection row rows)
      ≡ (if is_of k i row then some row else selection_of k i rows)
unfolding selection_of upsert_selection is_of
selection_of-upsert_selection k i row [] = refl
selection_of-upsert_selection k i row (r ∷ rs) =
    ground
      (arith, is_of-same k i row r, is_of-apart k i row r, selection_of-upsert_selection k i row rs)

pub selection_of-delete_others :
    (k id : String) (i : ℕ) (persons : List ℕ) (rows : List SelectionRow)
    → selection_of k i (delete_others id persons rows)
      ≡ (if same k id && not (has_person i persons) then none else selection_of k i rows)
unfolding selection_of delete_others delete_where is_of
selection_of-delete_others k id i persons [] = ground arith
selection_of-delete_others k id i persons (r ∷ rs) =
    ground (arith, selection_of-delete_others k id i persons rs)

module _ (installation id : String) (now : ℕ) where
  is_of-row :
      (i : ℕ) (v : Validated)
      → is_of id i (selection_row installation id now v) ≡ (v.person_index == i)
  unfolding is_of
  is_of-row i v = ground arith

  is_of-row_other :
      (k : String) (i : ℕ) (v : Validated)
      → k ≢ id
      → is_of k i (selection_row installation id now v) ≡ false
  unfolding is_of
  is_of-row_other k i v ne = ground arith

  pub selection_of-upsert_all :
      (i : ℕ) (vs : List Validated) (rows : List SelectionRow)
      → selection_of id i (upsert_all installation id now vs rows)
        ≡ or_row installation id now (newest i vs) (selection_of id i rows)
  unfolding upsert_all newest
  selection_of-upsert_all i [] rows = refl
  selection_of-upsert_all i (v ∷ vs) rows = ground (
    arith,
    selection_of-upsert_all i vs (upsert_selection (selection_row installation id now v) rows),
    selection_of-upsert_selection id i (selection_row installation id now v) rows,
    is_of-row i v,
  )

  pub others-upsert_all :
      (k : String) (i : ℕ) (vs : List Validated) (rows : List SelectionRow)
      → k ≢ id
      → selection_of k i (upsert_all installation id now vs rows) ≡ selection_of k i rows
  unfolding upsert_all
  others-upsert_all k i [] rows ne = refl
  others-upsert_all k i (v ∷ vs) rows ne = ground (
    arith,
    others-upsert_all k i vs (upsert_selection (selection_row installation id now v) rows) ne,
    selection_of-upsert_selection k i (selection_row installation id now v) rows,
    is_of-row_other k i v ne,
  )
