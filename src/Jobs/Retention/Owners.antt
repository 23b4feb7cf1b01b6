-- ===== src/Jobs/Retention/Owners.antt =====
-- No row outlives its job: every row with the id of a job has that job, before and after a deletion.
use standin_app_server.Prelude.{
  ℕ, ◌≡◌, ◌≢◌, Bool, false, List, [], ◌∷◌, String, Bool-cases, Option-cases, inl, inr, Option, none,
  some, same, All,
}
use standin_app_server.Jobs.Rows.{JobRow, OutboxRow, find_job, in_progress}
use standin_app_server.Jobs.Tables.{
  Tables, PersonRow, CandidateRow, SelectionRow, BodySelectionRow, OtherRow,
}
use standin_app_server.Jobs.Lifecycle.{
  delete_where, delete_jobs, is_chosen, delete_owned_job, of_installation,
}
use standin_app_server.Jobs.Retention.{
  Stored, delete_selected, chosen_by, is_of_installation, delete_installation_data,
  delete_expired_rows, is_past_basic, is_past_retention,
}
use standin_app_server.Jobs.Retention.Purged.{All-delete, find_job-delete}

-- A column names a job of the table, or none.
abbrev pub IsOwned : List JobRow → Option String → Type 0
IsOwned js none = Unit
IsOwned js (some id) = find_job id js ≢ none

pub record HasOwners (db : Tables) : Type 0 where
  pub outbox : All (λ (r : OutboxRow). IsOwned db.jobs (some r.job_id)) db.outbox
  pub people : All (λ (r : PersonRow). IsOwned db.jobs (some r.job_id)) db.people
  pub candidates : All (λ (r : CandidateRow). IsOwned db.jobs (some r.job_id)) db.candidates
  pub selections : All (λ (r : SelectionRow). IsOwned db.jobs (some r.job_id)) db.selections
  pub body_selections :
      All (λ (r : BodySelectionRow). IsOwned db.jobs (some r.job_id)) db.body_selections
  pub others : All (λ (r : OtherRow). IsOwned db.jobs r.job_id) db.others

IsOwned-delete :
    (chosen : String → Bool) (js : List JobRow) (id : Option String)
    → is_chosen chosen id ≡ false
    → IsOwned js id
    → IsOwned (delete_where (λ j. chosen j.id) js) id
IsOwned-delete chosen js none out h = tt
IsOwned-delete chosen js (some id) out h = rw (find_job-delete chosen id js out) h

-- The rows of a table with a column of ids, after the deletion of the jobs that are chosen.
All-IsOwned_delete :
    {A : Type 0} (column : A → Option String) (chosen : String → Bool) (js : List JobRow)
    (rows : List A)
    → All (λ r. IsOwned js (column r)) rows
    → All
        (λ r. IsOwned (delete_where (λ j. chosen j.id) js) (column r))
        (delete_where (λ r. is_chosen chosen (column r)) rows)
All-IsOwned_delete column chosen js rows =
    All-delete _ _ _ rows (λ r. IsOwned-delete chosen js (column r))

delete_jobs-HasOwners :
    (chosen : String → Bool) (db : Tables) → HasOwners db → HasOwners (delete_jobs chosen db)
unfolding delete_jobs
delete_jobs-HasOwners chosen db h = record {
  outbox = All-IsOwned_delete (λ r. some r.job_id) chosen db.jobs db.outbox h.outbox;
  people = All-IsOwned_delete (λ r. some r.job_id) chosen db.jobs db.people h.people;
  candidates = All-IsOwned_delete (λ r. some r.job_id) chosen db.jobs db.candidates h.candidates;
  selections = All-IsOwned_delete (λ r. some r.job_id) chosen db.jobs db.selections h.selections;
  body_selections =
      All-IsOwned_delete (λ r. some r.job_id) chosen db.jobs db.body_selections h.body_selections;
  others = All-IsOwned_delete (λ r. r.job_id) chosen db.jobs db.others h.others;
}

delete_selected-HasOwners :
    (test : JobRow → Bool) (db : Tables) → HasOwners db → HasOwners (delete_selected test db)
unfolding delete_selected
delete_selected-HasOwners test db h = delete_jobs-HasOwners (chosen_by test db.jobs) db h

delete_installation_data-HasOwners :
    (installation : String) (s : Stored)
    → HasOwners s.tables
    → HasOwners (delete_installation_data installation s).tables
unfolding delete_installation_data
delete_installation_data-HasOwners installation s h =
    let o = delete_selected-HasOwners (is_of_installation installation) s.tables h in
    record {
      outbox = o.outbox;
      people = o.people;
      candidates = o.candidates;
      selections = All-delete _ _ _ _ (λ r out owned. owned) o.selections;
      body_selections = o.body_selections;
      others = All-delete _ _ _ _ (λ r out owned. owned) o.others;
    }

delete_expired_rows-HasOwners :
    (now : ℕ) (s : Stored) → HasOwners s.tables → HasOwners (delete_expired_rows now s).tables
unfolding delete_expired_rows
delete_expired_rows-HasOwners now s h =
    let o =
      delete_selected-HasOwners (is_past_basic now) _
        (delete_selected-HasOwners (is_past_retention now) s.tables h) in
    record {
      outbox = o.outbox;
      people = o.people;
      candidates = o.candidates;
      selections = o.selections;
      body_selections = o.body_selections;
      others = All-delete _ _ _ _ (λ r out owned. owned) o.others;
    }

delete_owned_job-HasOwners :
    (id installation : String) (db : Tables)
    → HasOwners db
    → HasOwners (delete_owned_job id installation db).0
unfolding delete_owned_job
delete_owned_job-HasOwners id installation db h =
    elim (Option-cases (of_installation installation (find_job id db.jobs))) [
      | inl missing ↦ rw missing h
      | inr (j, here) ↦ elim (Bool-cases (in_progress j.status)) [
        | inl busy ↦ rw (here, busy) h
        | inr ended ↦ rw (here, ended) (delete_jobs-HasOwners (λ x. same x id) db h)
      ]
    ]

-- The three ways in which the server deletes.
pub data Deletion : Type 0 where
  job_deleted : (id installation : String) → Deletion
  consent_revoked : (installation : String) → Deletion
  swept : (now : ℕ) → Deletion

unfoldable pub delete : Deletion → Stored → Stored
delete (job_deleted id installation) s = record s {
  tables = (delete_owned_job id installation s.tables).0;
}
delete (consent_revoked installation) s = delete_installation_data installation s
delete (swept now) s = delete_expired_rows now s

unfoldable pub delete_each : List Deletion → Stored → Stored
delete_each [] s = s
delete_each (d ∷ ds) s = delete_each ds (delete d s)

delete-HasOwners : (d : Deletion) (s : Stored) → HasOwners s.tables → HasOwners (delete d s).tables
unfolding delete
delete-HasOwners (job_deleted id installation) s h =
    delete_owned_job-HasOwners id installation s.tables h
delete-HasOwners (consent_revoked installation) s h =
    delete_installation_data-HasOwners installation s h
delete-HasOwners (swept now) s h = delete_expired_rows-HasOwners now s h

-- Deletions of jobs, of installations and of what is too old, in any number and order, leave no row
-- behind whose job is gone, where there was none before.
pub delete_each-HasOwners :
    (ds : List Deletion) (s : Stored) → HasOwners s.tables → HasOwners (delete_each ds s).tables
unfolding delete_each
delete_each-HasOwners [] s h = h
delete_each-HasOwners (d ∷ ds) s h = delete_each-HasOwners ds (delete d s) (delete-HasOwners d s h)
