-- ===== src/Jobs/Retention/Purged.antt =====
-- Deletions by a test of the row, and by the ids of a subquery.
use standin_app_server.Prelude.{
  ◌≡◌, refl, Bool, false, not, ◌||◌, List, [], ◌∷◌, String, Option, none, some, arith, All,
  Bool-cases, inl, inr,
}
use standin_app_server.Jobs.Rows.{JobRow, find_job}
use standin_app_server.Jobs.Lifecycle.{delete_where}
use standin_app_server.Jobs.Lifecycle.Deletion.{select_where, HasUniqueIds}
use standin_app_server.Jobs.Retention.{chosen_by}

-- The rows are those for which the test does not hold, in their order.
abbrev pub IsPurged : {A : Type 0} → (A → Bool) → List A → List A → Type 0
IsPurged test rows rows' = rows' ≡ select_where (λ a. not (test a)) rows

module _ {A : Type 0} where
  pub delete-IsPurged :
      (test : A → Bool) (rows : List A) → IsPurged test rows (delete_where test rows)
  unfolding delete_where select_where
  delete-IsPurged test [] = refl
  delete-IsPurged test (a ∷ rows) = ground (arith, delete-IsPurged test rows)

  pub delete-delete :
      (test test' : A → Bool) (rows : List A)
      → IsPurged (λ a. test a || test' a) rows (delete_where test' (delete_where test rows))
  unfolding delete_where select_where
  delete-delete test test' [] = refl
  delete-delete test test' (a ∷ rows) = ground (arith, delete-delete test test' rows)

  -- Tests that agree on the rows.
  pub delete_where-agree :
      (test test' : A → Bool) (rows : List A)
      → All (λ a. test a ≡ test' a) rows
      → delete_where test rows ≡ delete_where test' rows
  unfolding delete_where
  delete_where-agree test test' [] h = refl
  delete_where-agree test test' (a ∷ rows) (h, hs) =
      ground (arith, h, delete_where-agree test test' rows hs)

  pub All-delete :
      (P Q : A → Type 0) (test : A → Bool) (rows : List A)
      → ((a : A) → test a ≡ false → P a → Q a)
      → All P rows
      → All Q (delete_where test rows)
  unfolding delete_where
  All-delete P Q test [] imp h = tt
  All-delete P Q test (a ∷ rows) imp (h, hs) = elim (Bool-cases (test a)) [
    | inl out ↦ rw out (All-delete P Q test rows imp hs)
    | inr stays ↦ rw stays (imp a stays h, All-delete P Q test rows imp hs)
  ]

-- What a test says of a job, where there is one.
abbrev pub holds_of : (JobRow → Bool) → Option JobRow → Bool
holds_of test none = false
holds_of test (some j) = test j

chosen_by-absent :
    (test : JobRow → Bool) (js : List JobRow) (id : String)
    → find_job id js ≡ none
    → chosen_by test js id ≡ false
unfolding chosen_by find_job
chosen_by-absent test [] id e = refl
chosen_by-absent test (j ∷ js) id e = ground (arith, chosen_by-absent test js id)

-- Ids are unique: the subquery has an id exactly when its job passes the test.
pub chosen_by-find :
    (test : JobRow → Bool) (js : List JobRow) (id : String)
    → HasUniqueIds js
    → chosen_by test js id ≡ holds_of test (find_job id js)
unfolding chosen_by find_job
chosen_by-find test [] id u = refl
chosen_by-find test (j ∷ js) id (u, us) =
    ground (arith, u, chosen_by-find test js id us, chosen_by-absent test js j.id u)

Apart-tail :
    (test : JobRow → Bool) (j : JobRow) (all js : List JobRow)
    → find_job j.id js ≡ none
    → All (λ k. chosen_by test all k.id ≡ test k) js
    → All (λ k. chosen_by test (j ∷ all) k.id ≡ test k) js
unfolding chosen_by find_job
Apart-tail test j all [] u h = tt
Apart-tail test j all (k ∷ js) u (h, hs) =
    (ground (arith, u, h), Apart-tail test j all js (ground (arith, u)) hs)

pub chosen_by-agrees :
    (test : JobRow → Bool) (js : List JobRow)
    → HasUniqueIds js
    → All (λ k. chosen_by test js k.id ≡ test k) js
unfolding chosen_by
chosen_by-agrees test [] u = tt
chosen_by-agrees test (j ∷ js) (u, us) = (
  ground (arith, chosen_by-absent test js j.id u),
  Apart-tail test j js js u (chosen_by-agrees test js us),
)

-- A job whose id is not chosen is found as before.
pub find_job-delete :
    (chosen : String → Bool) (id : String) (js : List JobRow)
    → chosen id ≡ false
    → find_job id (delete_where (λ j. chosen j.id) js) ≡ find_job id js
unfolding delete_where find_job
find_job-delete chosen id [] e = refl
find_job-delete chosen id (j ∷ js) e = ground (arith, e, find_job-delete chosen id js e)

absent-delete :
    (test : JobRow → Bool) (id : String) (js : List JobRow)
    → find_job id js ≡ none
    → find_job id (delete_where test js) ≡ none
unfolding delete_where find_job
absent-delete test id [] e = refl
absent-delete test id (j ∷ js) e = ground (arith, absent-delete test id js)

pub HasUniqueIds-delete :
    (test : JobRow → Bool) (js : List JobRow)
    → HasUniqueIds js
    → HasUniqueIds (delete_where test js)
unfolding delete_where
HasUniqueIds-delete test [] u = tt
HasUniqueIds-delete test (j ∷ js) (u, us) = elim (Bool-cases (test j)) [
  | inl out ↦ rw out (HasUniqueIds-delete test js us)
  | inr stays ↦ rw stays (absent-delete test j.id js u, HasUniqueIds-delete test js us)
]
