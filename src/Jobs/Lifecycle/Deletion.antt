-- ===== src/Jobs/Lifecycle/Deletion.antt =====
-- Deleting a job: what is left of it, and what stays.
use standin_app_server.Prelude.{
  fun_ext, ◌≡◌, ◌≢◌, inl, inr, refl, Bool, true, false, List, [], ◌∷◌, arith, if◌then◌else◌, String,
  Option, none, some, Bool-cases, Option-cases,
}
use standin_app_server.Jobs.Rows.{JobRow, in_progress, find_job, same, is_some_of}
use standin_app_server.Jobs.Tables.{Tables, OtherRow}
use standin_app_server.Jobs.Lifecycle.{
  is_chosen, delete_where, delete_jobs, delete_owned_job, of_installation, DeleteOutcome, deleted,
  not_found, in_progress_job,
}

-- SELECT of the rows of a test.
unfoldable pub select_where : {A : Type 0} → (A → Bool) → List A → List A
select_where test [] = []
select_where test (a ∷ rows) =
    let rest = select_where test rows in if test a then a ∷ rest else rest

-- The rows of an id are gone, and those of every other id are the same rows.
pub record IsGone {A : Type 0} (test : String → A → Bool) (id : String) (rows rows' : List A)
    : Type 0 where
  pub gone : select_where (test id) rows' ≡ []
  pub others :
      (other : String)
      → other ≢ id
      → select_where (test other) rows' ≡ select_where (test other) rows

pub select-delete :
    {A : Type 0} (test : A → Bool) (rows : List A) → select_where test (delete_where test rows) ≡ []
unfolding select_where delete_where
select-delete test [] = refl
select-delete test (a ∷ rows) = ground (arith, select-delete test rows)

pub select-delete_apart :
    {A : Type 0} (keep test : A → Bool) (rows : List A)
    → ((a : A) → keep a ≡ true → test a ≡ false)
    → select_where keep (delete_where test rows) ≡ select_where keep rows
unfolding select_where delete_where
select-delete_apart keep test [] apart = refl
select-delete_apart keep test (a ∷ rows) apart =
    ground (arith, apart a, select-delete_apart keep test rows apart)

pub same_apart : (a other id : String) → other ≢ id → same a other ≡ true → same a id ≡ false
same_apart a other id ne h = ground arith

is_chosen_one : (a : Option String) (id : String) → is_chosen (λ x. same x id) a ≡ is_some_of a id
is_chosen_one none id = refl
is_chosen_one (some a) id = refl

is_some_of_apart :
    (a : Option String) (other id : String)
    → other ≢ id
    → is_some_of a other ≡ true
    → is_some_of a id ≡ false
is_some_of_apart none other id ne h = refl
is_some_of_apart (some a) other id ne h = same_apart a other id ne h

delete-IsGone :
    {A : Type 0} (column : A → String) (id : String) (rows : List A)
    → IsGone (λ x a. same (column a) x) id rows (delete_where (λ a. same (column a) id) rows)
delete-IsGone column id rows = record {
  gone = select-delete _ rows;
  others = λ other ne. select-delete_apart _ _ rows (λ a. same_apart (column a) other id ne);
}

-- Every table with the id of a job.
pub record IsErased (id : String) (db db' : Tables) : Type 0 where
  pub jobs : IsGone (λ x j. same j.id x) id db.jobs db'.jobs
  pub outbox : IsGone (λ x r. same r.job_id x) id db.outbox db'.outbox
  pub people : IsGone (λ x r. same r.job_id x) id db.people db'.people
  pub candidates : IsGone (λ x r. same r.job_id x) id db.candidates db'.candidates
  pub selections : IsGone (λ x r. same r.job_id x) id db.selections db'.selections
  pub body_selections : IsGone (λ x r. same r.job_id x) id db.body_selections db'.body_selections
  pub others : IsGone (λ x r. is_some_of r.job_id x) id db.others db'.others
  pub counters : db'.counters ≡ db.counters

delete_jobs-IsErased :
    (id : String) (db : Tables) → IsErased id db (delete_jobs (λ x. same x id) db)
unfolding delete_jobs
delete_jobs-IsErased id db = record {
  jobs = delete-IsGone (λ j. j.id) id db.jobs;
  outbox = delete-IsGone (λ r. r.job_id) id db.outbox;
  people = delete-IsGone (λ r. r.job_id) id db.people;
  candidates = delete-IsGone (λ r. r.job_id) id db.candidates;
  selections = delete-IsGone (λ r. r.job_id) id db.selections;
  body_selections = delete-IsGone (λ r. r.job_id) id db.body_selections;
  others = rw (fun_ext (λ (r : OtherRow). is_chosen_one r.job_id id)) (record {
    gone = select-delete _ db.others;
    others =
        λ other ne. select-delete_apart _ _ db.others (λ a. is_some_of_apart a.job_id other id ne);
  });
  counters = refl;
}

-- The answer to a deletion, with what it says of the job.
abbrev pub Answers : String → String → Tables → Tables × DeleteOutcome → Type 0
Answers id installation db (db', deleted key) =
    ((j : JobRow) × (of_installation installation (find_job id db.jobs) ≡ some j)
      × (in_progress j.status ≡ false)
      × (j.input_s3_key ≡ key))
    × IsErased id db db'
Answers id installation db (db', in_progress_job) =
    ((j : JobRow) × (of_installation installation (find_job id db.jobs) ≡ some j)
      × (in_progress j.status ≡ true))
    × (db' ≡ db)
Answers id installation db (db', not_found) =
    (of_installation installation (find_job id db.jobs) ≡ none) × (db' ≡ db)

-- A deletion erases a job of the installation that has ended, from every table and nothing else; it
-- refuses a job in progress, and any job that the installation does not own, and then changes nothing.
pub delete_owned_job-Answers :
    (id installation : String) (db : Tables)
    → Answers id installation db (delete_owned_job id installation db)
unfolding delete_owned_job
delete_owned_job-Answers id installation db =
    elim (Option-cases (of_installation installation (find_job id db.jobs))) [
      | inl missing ↦ rw missing (missing, refl)
      | inr (j, here) ↦ elim (Bool-cases (in_progress j.status)) [
        | inl busy ↦ rw (here, busy) ((j, here, busy), refl)
        | inr ended ↦ rw (here, ended) ((j, here, ended, refl), delete_jobs-IsErased id db)
      ]
    ]

-- Ids are the primary key of the jobs.
abbrev pub HasUniqueIds : List JobRow → Type 0
HasUniqueIds [] = Unit
HasUniqueIds (j ∷ js) = (find_job j.id js ≡ none) × HasUniqueIds js
