-- ===== src/Jobs/Rows/Laws.antt =====
-- The statements on the table of jobs: what an update leaves to be found, and how it changes the
-- number of running jobs.
use standin_app_server.Prelude.{
  ℕ, ◌≤◌, ◌≡◌, refl, Bool, true, false, List, [], ◌∷◌, arith, ite, if◌then◌else◌, String,
  String-discrete, Option, none, some,
}
use standin_app_server.Jobs.Rows.{
  JobRow, find_job, update_where, update_all, counts_as_running, count_running,
}

-- What an update makes of the row of its id.
abbrev pub updated : (JobRow → Bool) → (JobRow → JobRow) → Option JobRow → Option JobRow
updated test set none = none
updated test set (some j) = some (if test j then set j else j)

-- The row that it returns.
abbrev pub returned : (JobRow → Bool) → (JobRow → JobRow) → Option JobRow → Option JobRow
returned test set none = none
returned test set (some j) = if test j then some (set j) else none

pub update_where-returned :
    (id : String) (test : JobRow → Bool) (set : JobRow → JobRow) (js : List JobRow)
    → (update_where id test set js).1 ≡ returned test set (find_job id js)
unfolding update_where find_job
update_where-returned id test set [] = refl
update_where-returned id test set (j ∷ js) = ground (arith, update_where-returned id test set js)

-- The updates keep ids.
module _ (set : JobRow → JobRow) (keep : (j : JobRow) → (set j).id ≡ j.id) where
  pub find_job-update_where :
      (id other : String) (test : JobRow → Bool) (js : List JobRow)
      → find_job other (update_where id test set js).0
        ≡ ite (String-discrete id other) (updated test set (find_job id js)) (find_job other js)
  unfolding update_where find_job
  find_job-update_where id other test [] = ground arith
  find_job-update_where id other test (j ∷ js) =
      ground (arith, keep j, find_job-update_where id other test js)

  pub find_job-update_all :
      (id : String) (test : JobRow → Bool) (js : List JobRow)
      → find_job id (update_all test set js).0 ≡ updated test set (find_job id js)
  unfolding update_all find_job
  find_job-update_all id test [] = refl
  find_job-update_all id test (j ∷ js) = ground (arith, keep j, find_job-update_all id test js)

-- An update whose own result no longer passes the test does nothing the second time.
pub update_where-update_where :
    (id : String) (test : JobRow → Bool) (set set' : JobRow → JobRow) (js : List JobRow)
    → ((j : JobRow) → (set j).id ≡ j.id)
    → ((j : JobRow) → test (set j) ≡ false)
    → update_where id test set' (update_where id test set js).0
      ≡ ((update_where id test set js).0, none)
unfolding update_where
update_where-update_where id test set set' [] keep off = refl
update_where-update_where id test set set' (j ∷ js) keep off =
    ground (arith, keep j, off j, update_where-update_where id test set set' js keep off)

-- An update after which no row counts as running that did not before adds none to the number.
module _ (installation : String) (cutoff : ℕ) (test : JobRow → Bool) (set : JobRow → JobRow)
    (less : (j : JobRow)
      → test j ≡ true
      → counts_as_running installation cutoff j ≡ false
      → counts_as_running installation cutoff (set j) ≡ false) where
  pub count_running-update_where :
      (id : String) (js : List JobRow)
      → count_running installation cutoff (update_where id test set js).0
        ≤ count_running installation cutoff js
  unfolding update_where count_running
  count_running-update_where id [] = omega arith
  count_running-update_where id (j ∷ js) = ground (arith, less j, count_running-update_where id js)

  pub count_running-update_all :
      (js : List JobRow)
      → count_running installation cutoff (update_all test set js).0
        ≤ count_running installation cutoff js
  unfolding update_all count_running
  count_running-update_all [] = omega arith
  count_running-update_all (j ∷ js) = ground (arith, less j, count_running-update_all js)

-- As time passes, no more jobs count.
pub count_running-later :
    (installation : String) (cutoff later : ℕ) (js : List JobRow)
    → cutoff ≤ later
    → count_running installation later js ≤ count_running installation cutoff js
unfolding count_running counts_as_running
count_running-later installation cutoff later [] h = omega arith
count_running-later installation cutoff later (j ∷ js) h =
    ground (arith, count_running-later installation cutoff later js h)
