-- ===== src/Jobs/Worker/Ends.antt =====
-- How a run of the worker ends its job, and when the job is left as it was.
use standin_app_server.Prelude.{
  ℕ, ◌≡◌, inl, inr, refl, ap, subst, ◌∙◌, Bool, true, false, ◌&&◌, ◌||◌, if◌then◌else◌, arith,
  String, some, Bool-cases,
}
use standin_app_server.Jobs.Rows.{completed, failed, Person, JobRow, in_progress, find_job}
use standin_app_server.Jobs.Rows.Laws.{find_job-update_where}
use standin_app_server.Jobs.Tables.{Tables, Config, Tried, done, thrown}
use standin_app_server.Jobs.Lifecycle.{claim_job, fail_set, Patch, patch_set, update_job}
use standin_app_server.Jobs.Lifecycle.Leases.{completed_patch, claim_job-IsLeased}
use standin_app_server.Jobs.Lifecycle.Terminal.{fail_job_lem}
use standin_app_server.Jobs.Records.{Records, Refusal, persist_analysis_records}
use standin_app_server.Jobs.Records.Laws.{HasDistinctPeople}
use standin_app_server.Jobs.Records.Stored.{persist-IsStored}
use standin_app_server.Jobs.Records.Outcomes.{Persisted, persist-Persisted}
use standin_app_server.Jobs.Worker.{
  should_refund_quota, AnalysisFailureCode, inference_failed, Failures, code_text, InferenceError,
  analysis_failure_code, Times, running_patch, complete_or_fail, fail_with, analyze_and_store,
  run_analysis_job, Message, storage_patch, has_input, handle_message,
}

patch_set-id : (now : ℕ) (patch : Patch) (j : JobRow) → (patch_set now patch j).id ≡ j.id
unfolding patch_set
patch_set-id now patch j = ground arith

update_job-row :
    (id : String) (patch : Patch) (now : ℕ) (db : Tables) (j : JobRow)
    → find_job id db.jobs ≡ some j
    → find_job id (update_job id patch now db).jobs ≡ some (patch_set now patch j)
unfolding update_job
update_job-row id patch now db j here = ground (
  arith,
  here,
  find_job-update_where (patch_set now patch) (λ k. patch_set-id now patch k) id id (λ k. true)
      db.jobs,
)

-- The run does not get to the end: the analysis threw, or the database refused a statement after it.
abbrev pub Stops : Tried InferenceError Records → Failures → Type 0
Stops (thrown e) failures = Unit
Stops (done r) failures = (failures.records || failures.completion) ≡ true

-- How a job that ran ends.
pub record IsEnded (id : String) (analysis : Tried InferenceError Records) (failures : Failures)
    (db' : Tables) : Type 0 where
  pub row : JobRow
  pub found : find_job id db'.jobs ≡ some row
  pub over : failures.failure ≡ false → in_progress row.status ≡ false
  pub error :
      (e : InferenceError)
      → analysis ≡ thrown e
      → failures.failure ≡ false
      → (row.status ≡ failed) × (row.error_code ≡ some (code_text (analysis_failure_code e)))
  pub refused :
      (r : Records)
      → analysis ≡ done r
      → (failures.records || failures.completion) ≡ true
      → failures.failure ≡ false
      → (row.status ≡ failed) × (row.error_code ≡ some "INFERENCE_FAILED")
  pub stored :
      (r : Records)
      → analysis ≡ done r
      → HasDistinctPeople r.result.persons
      → (failures.records || failures.completion) ≡ false
      → (row.status ≡ completed) × (row.result_json ≡ some r.result)
  pub left : failures.failure ≡ true → Stops analysis failures → in_progress row.status ≡ true

abbrev ended_row : Failures → AnalysisFailureCode → ℕ → JobRow → JobRow
ended_row failures code now j = if failures.failure then j else fail_set (code_text code) now j

fail_with-row :
    (config : Config) (id : String) (code : AnalysisFailureCode) (refunded : Bool)
    (failures : Failures) (now : ℕ) (db : Tables) (j : JobRow)
    → find_job id db.jobs ≡ some j
    → in_progress j.status ≡ true
    → find_job id (fail_with config id code refunded failures now db).jobs
      ≡ some (ended_row failures code now j)
unfolding fail_with
fail_with-row config id code refunded failures now db j here busy =
    let failing =
      (fail_job_lem config id (code_text code) now (should_refund_quota code) refunded db).1 j here
        busy in
    ground (arith, here, failing)

-- A row after a failure that the database records or refuses.
failed_or_kept :
    (failures : Failures) (code : AnalysisFailureCode) (now : ℕ) (j : JobRow)
    → in_progress j.status ≡ true
    → (failures.failure ≡ false
        → ((ended_row failures code now j).status ≡ failed)
          × ((ended_row failures code now j).error_code ≡ some (code_text code)))
      × (failures.failure ≡ true → in_progress (ended_row failures code now j).status ≡ true)
failed_or_kept failures code now j busy = elim (Bool-cases failures.failure) [
  | inl refuses ↦ rw refuses (λ f. cc, λ t. busy)
  | inr records ↦ rw records (λ f. (refl, refl), λ t. cc)
]

failed_over : (row : JobRow) → row.status ≡ failed → in_progress row.status ≡ false
unfolding in_progress
failed_over row e = rw e refl

module _ (config : Config) (initial_body : String → Person → Bool → String) where
  -- A run whose analysis gave records, and that was stopped afterwards.
  stopped-IsEnded :
      (id : String) (r : Records) (refunded : Bool) (failures : Failures) (now : ℕ) (db : Tables)
      (j : JobRow)
      → find_job id db.jobs ≡ some j
      → in_progress j.status ≡ true
      → (HasDistinctPeople r.result.persons → (failures.records || failures.completion) ≡ true)
      → IsEnded id (done r) failures (
          fail_with config id (analysis_failure_code InferenceError.other) refunded failures now db)
  unfolding analysis_failure_code
  stopped-IsEnded id r refunded failures now db j here busy stops =
      let (fails, kept) = failed_or_kept failures inference_failed now j busy in
      record {
        row = ended_row failures inference_failed now j;
        found =
            fail_with-row config id (analysis_failure_code InferenceError.other) refunded failures
              now db j here busy;
        over = λ f. failed_over (ended_row failures inference_failed now j) (fails f).0;
        error = λ e q f. cc;
        refused = λ r' q s f. fails f;
        stored = λ r' q d n.
            let same_records : r' ≡ r = ground (arith, q) in
            let d' = subst (λ (x : Records). HasDistinctPeople x.result.persons) same_records d in
            absurd (cc (stops d', n));
        left = λ t s. kept t;
      }

  completed-IsEnded :
      (id : String) (r : Records) (failures : Failures) (now : ℕ) (db : Tables) (k : JobRow)
      → find_job id db.jobs ≡ some k
      → (failures.records || failures.completion) ≡ false
      → IsEnded id (done r) failures (update_job id (completed_patch r.result) now db)
  unfolding patch_set in_progress
  completed-IsEnded id r failures now db k here passes = record {
    row = _;
    found = update_job-row id (completed_patch r.result) now db k here;
    over = λ f. refl;
    error = λ e q f. cc;
    refused = λ r' q s f. absurd (cc (s, passes));
    stored = λ r' q d n. (refl, ground (arith, q));
    left = λ t s. absurd (cc (s, passes));
  }

  complete_or_fail-IsEnded :
      (id : String) (r : Records) (refunded : Bool) (failures : Failures) (now at : ℕ) (db : Tables)
      (j : JobRow) (t : Tables × Tried Refusal (Unit {0}))
      → find_job id db.jobs ≡ some j
      → in_progress j.status ≡ true
      → failures.records ≡ false
      → Persisted initial_body id (record r { complete = false }) at db j t
      → (HasDistinctPeople r.result.persons → t.1 ≡ done tt)
      → IsEnded id (done r) failures (complete_or_fail config id r.result refunded failures now t)
  unfolding complete_or_fail
  complete_or_fail-IsEnded id r refunded failures now at db j (db', done u) here busy wrote p fits =
      elim (Bool-cases failures.completion) [
        | inl refuses ↦ simp refuses (
            stopped-IsEnded id r refunded failures now db' _ p busy (λ d. rw (refuses, wrote) refl))
        | inr passes ↦
            simp passes (completed-IsEnded id r failures now db' _ p (rw (passes, wrote) refl))
      ]
  complete_or_fail-IsEnded id r refunded failures now at db j (db', thrown e) here busy wrote p
        fits =
      stopped-IsEnded id r refunded failures now db' j (ap (λ d. find_job id d.jobs) p ∙ here) busy
        (λ d. absurd (cc (fits d)))

  analyze_and_store-IsEnded :
      (id : String) (analysis : Tried InferenceError Records) (refunded : Bool)
      (failures : Failures) (times : Times) (db : Tables) (j : JobRow)
      → find_job id db.jobs ≡ some j
      → in_progress j.status ≡ true
      → IsEnded id analysis failures
          (analyze_and_store config initial_body id analysis refunded failures times db)
  unfolding analyze_and_store
  analyze_and_store-IsEnded id (done r) refunded failures times db j here busy =
      elim (Bool-cases failures.records) [
        | inl refuses ↦ simp refuses (
            stopped-IsEnded id r refunded failures times.ended db j here busy
              (λ d. rw refuses refl))
        | inr wrote ↦ simp wrote (
            complete_or_fail-IsEnded id r refunded failures times.ended times.persisted db j
              (persist_analysis_records initial_body id (record r { complete = false })
                times.persisted db)
              here busy wrote
              (persist-Persisted initial_body id (record r { complete = false }) times.persisted db
                j here)
              (λ d.
                (persist-IsStored initial_body id (record r { complete = false }) times.persisted db
                  j here d).0))
      ]
  analyze_and_store-IsEnded id (thrown e) refunded failures times db j here busy =
      let (fails, kept) = failed_or_kept failures (analysis_failure_code e) times.ended j busy in
      record {
        row = ended_row failures (analysis_failure_code e) times.ended j;
        found =
            fail_with-row config id (analysis_failure_code e) refunded failures times.ended db j
              here busy;
        over = λ f.
            failed_over (ended_row failures (analysis_failure_code e) times.ended j) (fails f).0;
        error = λ e' q f.
            let same_error : e ≡ e' = ground (arith, q) in
            (
              (fails f).0,
              (fails f).1 ∙ ap (λ x. some (code_text (analysis_failure_code x))) same_error,
            );
        refused = λ r q s f. cc;
        stored = λ r q d n. cc;
        left = λ t s. kept t;
      }

  -- A run on a job in progress, which it marks as running unless that was done before: where its
  -- failure can be recorded, the job has ended. It is then failed with the code of the error that the
  -- analysis threw, or failed with INFERENCE_FAILED when the database refuses the records or the
  -- completion; and it is completed with the result when the database refuses neither and the result's
  -- people and each person's candidates have different keys. When the analysis throws or the database
  -- refuses one of these two, and the failure cannot be recorded, the job stays in progress.
  pub run_analysis_job-IsEnded :
      (id : String) (analysis : Tried InferenceError Records) (already_running refunded : Bool)
      (failures : Failures) (times : Times) (db : Tables) (j : JobRow)
      → find_job id db.jobs ≡ some j
      → in_progress j.status ≡ true
      → IsEnded id analysis failures (
          run_analysis_job config initial_body id analysis already_running refunded failures times
            db)
  unfolding run_analysis_job patch_set in_progress
  run_analysis_job-IsEnded id analysis true refunded failures times db j here busy =
      rw (here, run_analysis_job)
        (analyze_and_store-IsEnded id analysis refunded failures times db j here busy)
  run_analysis_job-IsEnded id analysis false refunded failures times db j here busy =
      rw (here, run_analysis_job)
        (analyze_and_store-IsEnded id analysis refunded failures times
          (update_job id running_patch times.started db) _
          (update_job-row id running_patch times.started db j here) refl)

  -- A claim gives the job in progress, as it then is in the table.
  claimed_row :
      (id worker : String) (now lease : ℕ) (db : Tables) (j : JobRow)
      → (claim_job id worker now lease db).1 ≡ some j
      → (find_job id (claim_job id worker now lease db).0.jobs ≡ some j)
        × (in_progress j.status ≡ true)
  unfolding claim_job in_progress
  claimed_row id worker now lease db j e =
      let l = claim_job-IsLeased id worker now lease db j e in (l.row, rw l.status)

  -- The tables after the catch, and the job in them.
  caught_row :
      (id : String) (caught : ℕ) (db : Tables) (k : JobRow)
      → find_job id db.jobs ≡ some k
      → (x : JobRow) × (find_job id (update_job id storage_patch caught db).jobs ≡ some x)
        × (x.status ≡ failed)
        × (x.error_code ≡ some "INPUT_STORAGE_FAILED")
  unfolding patch_set
  caught_row id caught db k found =
      (_, update_job-row id storage_patch caught db k found, refl, refl)

  -- When the stored input does not load, or the queue refuses to delete the message after the run, the
  -- job is failed with INPUT_STORAGE_FAILED, and so is one that the analysis had completed.
  pub handle_message-refused :
      (worker : String) (now lease : ℕ) (m : Message) (times : Times) (caught : ℕ) (db : Tables)
      (j : JobRow)
      → (claim_job m.job_id worker now lease db).1 ≡ some j
      → (m.loads && m.deletes) ≡ false
      → (k : JobRow) × (find_job m.job_id
            (handle_message config initial_body worker now lease m times caught db).jobs
          ≡ some k)
        × (k.status ≡ failed)
        × (k.error_code ≡ some "INPUT_STORAGE_FAILED")
  unfolding handle_message
  handle_message-refused worker now lease m times caught db j e refused =
      let (here, busy) = claimed_row m.job_id worker now lease db j e in
      let run =
        run_analysis_job-IsEnded m.job_id m.analysis true m.refunded m.failures times
          (claim_job m.job_id worker now lease db).0 j here busy in
      elim (Bool-cases (has_input config initial_body j.input_s3_key && m.loads)) [
        | inr stays ↦ rw (handle_message, e, stays) (caught_row m.job_id caught _ j here)
        | inl runs ↦
            let keeps_message : m.deletes ≡ false = ground (arith, runs, refused) in
            rw (handle_message, e, runs, keeps_message)
              (caught_row m.job_id caught _ run.row run.found)
      ]
