-- ===== src/Jobs/Lifecycle.antt =====
-- jobs/store.ts: failJob, failStaleJobs, getOwnedJob, deleteOwnedJob (with retention.ts deleteJobs),
-- setJobInput, claimJob, renewJobLease, getJob and updateJob. The times that the code reads are
-- arguments.
pub mod Leases
pub mod Terminal
pub mod Deletion
use standin_app_server.Prelude.{
  ℕ, suc, ◌+◌, ◌-◌, ◌*◌, ◌≡◌, refl, Bool, true, false, not, ◌&&◌, ◌||◌, List, [], ◌∷◌, arith, ite,
  if◌then◌else◌, ltb, ◌==◌, String, String-discrete, Option, none, some,
}
use standin_app_server.Jobs.Rows.{
  JobStatus, queued, running, completed, failed, AnalysisResult, JobRow, OutboxRow, in_progress,
  same, is_some_of, is_none, find_job, update_where, update_all,
}
use standin_app_server.Jobs.Tables.{
  Tables, Config, PersonRow, CandidateRow, SelectionRow, BodySelectionRow, OtherRow,
}
use standin_app_server.Jobs.Create.{stale_cutoff, refund_analysis_quota}

abbrev pub fail_set : String → ℕ → JobRow → JobRow
fail_set code now j = record j {
  status = failed;
  error_code = some code;
  updated_at = now;
  completed_at = some now;
}

unfoldable pub refund_for : Config → ℕ → Bool → Option JobRow → Tables → Tables
refund_for config now refund_quota none db = db
refund_for config now refund_quota (some j) db = elim j.installation_id [
  | none ↦ db
  | some installation ↦
      if refund_quota && not (same installation "")
      then refund_analysis_quota config now installation db
      else db
]

-- The refund is best effort: `refunded` says whether its statements reach the database.
unfoldable pub fail_job : Config → String → String → ℕ → Bool → Bool → Tables → Tables × Bool
fail_job config id code now refund_quota refunded db =
    let (jobs, row) = update_where id (λ j. in_progress j.status) (fail_set code now) db.jobs in
    (
      refund_for config now (refund_quota && refunded) row (record db { jobs = jobs }),
      not (is_none row),
    )

abbrev pub abandoned : String
abandoned = "ABANDONED"

-- status IN ('queued','running') AND created_at < cutoff
abbrev pub is_stale : Config → ℕ → JobRow → Bool
is_stale config now j = in_progress j.status && ltb j.created_at (stale_cutoff config now)

unfoldable pub fail_stale_jobs : Config → ℕ → Tables → Tables × ℕ
fail_stale_jobs config now db =
    let (jobs, n) = update_all (is_stale config now) (fail_set abandoned now) db.jobs in
    (record db { jobs = jobs }, n)

unfoldable pub get_job : String → Tables → Option JobRow
get_job id db = find_job id db.jobs

-- A row of an id passes only under its installation and for 90 days.
abbrev pub ninety_days_ms : ℕ
ninety_days_ms = 90 * 86400000

owned : String → ℕ → Option JobRow → Option JobRow
owned installation now none = none
owned installation now (some j) =
    if is_some_of j.installation_id installation && ltb now (j.created_at + ninety_days_ms)
    then some j
    else none

-- The upgrade of an old result for manual export, which follows, is not modelled.
unfoldable pub get_owned_job : String → String → ℕ → Tables → Option JobRow
unfolding owned
get_owned_job id installation now db = owned installation now (find_job id db.jobs)

-- SQS delivers at least once; the claim lets one worker in.
abbrev pub lease_open : ℕ → Option ℕ → Bool
lease_open now none = true
lease_open now (some expires) = ltb expires now

-- status = 'queued' OR (status = 'running' AND (lease_expires_at IS NULL OR lease_expires_at < now))
abbrev pub open_to_claim : ℕ → JobStatus → Option ℕ → Bool
open_to_claim now queued expires = true
open_to_claim now running expires = lease_open now expires
open_to_claim now completed expires = false
open_to_claim now failed expires = false

unfoldable pub claimable : ℕ → JobRow → Bool
claimable now j = not (is_none j.input_s3_key) && open_to_claim now j.status j.lease_expires_at

abbrev pub coalesce : Option ℕ → ℕ → Option ℕ
coalesce none b = some b
coalesce (some a) b = some a

abbrev pub claim_set : String → ℕ → ℕ → JobRow → JobRow
claim_set worker now lease_seconds j = record j {
  status = running;
  started_at = coalesce j.started_at now;
  updated_at = now;
  lease_owner = some worker;
  lease_expires_at = some (now + lease_seconds * 1000);
  attempt_count = j.attempt_count + 1;
}

unfoldable pub claim_job : String → String → ℕ → ℕ → Tables → Tables × Option JobRow
claim_job id worker now lease_seconds db =
    let (jobs, row) =
      update_where id (claimable now) (claim_set worker now lease_seconds) db.jobs in
    (record db { jobs = jobs }, row)

abbrev pub is_running : JobStatus → Bool
is_running running = true
is_running queued = false
is_running completed = false
is_running failed = false

unfoldable pub holds : String → JobRow → Bool
holds worker j = is_some_of j.lease_owner worker && is_running j.status

-- `now` is the time of the lease, `at` that of the update.
unfoldable pub renew_job_lease : String → String → ℕ → ℕ → ℕ → Tables → Tables × Bool
renew_job_lease id worker now at lease_seconds db =
    let (jobs, row) =
      update_where id (holds worker)
        (λ j. record j { lease_expires_at = some (now + lease_seconds * 1000); updated_at = at })
        db.jobs in
    (record db { jobs = jobs }, not (is_none row))

-- `ON CONFLICT (job_id) DO NOTHING`.
unfoldable pub add_outbox : String → ℕ → List OutboxRow → List OutboxRow
add_outbox id now [] =
    record { job_id = id; created_at = now; published_at = none; publish_attempts = 0 } ∷ []
add_outbox id now (o ∷ os) = ite (String-discrete o.job_id id) (o ∷ os) (o ∷ add_outbox id now os)

unfoldable pub set_job_input : String → Option String → String → Bool → ℕ → Tables → Tables
set_job_input id s3_key sha256 enqueue now db = record db {
  jobs =
      (update_where id (λ j. true)
        (λ j. record j {
          input_s3_key = s3_key;
          input_sha256 = some sha256;
          input_stored_at = some now;
          updated_at = now;
        })
        db.jobs).0;
  outbox = if enqueue then add_outbox id now db.outbox else db.outbox;
}

-- A patch names the fields that it sets; a null value is `some none`.
pub record Patch : Type 0 where
  pub status : Option JobStatus
  pub result : Option (Option AnalysisResult)
  pub error_code : Option (Option String)

set_status : ℕ → Option JobStatus → JobRow → JobRow
set_status now none j = j
set_status now (some queued) j = record j { status = queued }
set_status now (some running) j = record j { status = running; started_at = some now }
set_status now (some completed) j = record j { status = completed; completed_at = some now }
set_status now (some failed) j = record j { status = failed; completed_at = some now }

set_result : Option (Option AnalysisResult) → JobRow → JobRow
set_result none j = j
set_result (some r) j = record j { result_json = r }

set_error : Option (Option String) → JobRow → JobRow
set_error none j = j
set_error (some e) j = record j { error_code = e }

unfoldable pub patch_set : ℕ → Patch → JobRow → JobRow
unfolding set_status set_result set_error
patch_set now p j =
    set_error p.error_code
      (set_result p.result (set_status now p.status (record j { updated_at = now })))

-- The code reads the clock up to three times; one time stands for them.
unfoldable pub update_job : String → Patch → ℕ → Tables → Tables
update_job id patch now db = record db {
  jobs = (update_where id (λ j. true) (patch_set now patch) db.jobs).0;
}

pub data DeleteOutcome : Type 0 where
  deleted : (input_s3_key : Option String) → DeleteOutcome
  not_found in_progress_job : DeleteOutcome

-- DELETE FROM a table WHERE a test holds of the row.
unfoldable pub delete_where {ℓ} : {A : Type ℓ} → (A → Bool) → List A → List A
delete_where test [] = []
delete_where test (a ∷ rows) =
    let rest = delete_where test rows in if test a then rest else a ∷ rest

-- Whether a column is one of the ids; NULL is none of them.
abbrev pub is_chosen : (String → Bool) → Option String → Bool
is_chosen chosen none = false
is_chosen chosen (some id) = chosen id

-- retention.ts deleteJobs of the jobs whose ids are chosen: the rows of every table with such a job_id,
-- then the jobs, whose outbox rows go by ON DELETE CASCADE.
unfoldable pub delete_jobs : (String → Bool) → Tables → Tables
delete_jobs chosen db = record db {
  body_selections = delete_where (λ r. chosen r.job_id) db.body_selections;
  selections = delete_where (λ r. chosen r.job_id) db.selections;
  candidates = delete_where (λ r. chosen r.job_id) db.candidates;
  people = delete_where (λ r. chosen r.job_id) db.people;
  others = delete_where (λ r. is_chosen chosen r.job_id) db.others;
  jobs = delete_where (λ j. chosen j.id) db.jobs;
  outbox = delete_where (λ r. chosen r.job_id) db.outbox;
}

delete_found : String → Option JobRow → Tables → Tables × DeleteOutcome
delete_found id none db = (db, not_found)
delete_found id (some j) db =
    if in_progress j.status
    then (db, in_progress_job)
    else (delete_jobs (λ x. same x id) db, deleted j.input_s3_key)

-- WHERE id = $1 AND installation_id = $2
abbrev pub of_installation : String → Option JobRow → Option JobRow
of_installation installation none = none
of_installation installation (some j) =
    if is_some_of j.installation_id installation then some j else none

unfoldable pub delete_owned_job : String → String → Tables → Tables × DeleteOutcome
unfolding delete_found
delete_owned_job id installation db =
    delete_found id (of_installation installation (find_job id db.jobs)) db
