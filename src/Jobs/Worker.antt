-- ===== src/Jobs/Worker.antt =====
-- jobs/runner.ts runAnalysisJob and worker.ts: a message of the queue, from the claim of its job to the
-- end. What the inference server answers, whether the stored input loads, whether the queue deletes the
-- message, and which statements of the run the database refuses are arguments; logs and alerts are left
-- out. The claim, the mark that the job is running and the update in the worker's catch do not fail here.
pub mod Ends
mod Tests
use standin_app_server.Prelude.{
  ℕ, ◌≡◌, refl, Bool, true, false, not, ◌&&◌, ◌||◌, ◌==◌, List, [], ◌∷◌, arith, if◌then◌else◌,
  String, Option, none, some, Json,
}
use standin_app_server.Jobs.Rows.{
  JobStatus, running, completed, failed, Person, AnalysisResult, JobRow, find_job, same, is_none,
}
use standin_app_server.Jobs.Tables.{Tables, Config, Tried, done, thrown}
use standin_app_server.Jobs.Lifecycle.{claim_job, fail_job, Patch, update_job}
use standin_app_server.Jobs.Lifecycle.Leases.{completed_patch}
use standin_app_server.Jobs.Queue.Messages.{parse_queue_message}
use standin_app_server.Jobs.Records.{Records, Refusal, persist_analysis_records}

pub data AnalysisFailureCode : Type 0 where
  analysis_timeout analysis_unavailable analysis_rate_limited analysis_daily_quota_exhausted
        analysis_upstream_timeout analysis_upstream_error inference_failed :
      AnalysisFailureCode

abbrev pub code_text : AnalysisFailureCode → String
code_text analysis_timeout = "ANALYSIS_TIMEOUT"
code_text analysis_unavailable = "ANALYSIS_UNAVAILABLE"
code_text analysis_rate_limited = "ANALYSIS_RATE_LIMITED"
code_text analysis_daily_quota_exhausted = "ANALYSIS_DAILY_QUOTA_EXHAUSTED"
code_text analysis_upstream_timeout = "ANALYSIS_UPSTREAM_TIMEOUT"
code_text analysis_upstream_error = "ANALYSIS_UPSTREAM_ERROR"
code_text inference_failed = "INFERENCE_FAILED"

-- What `analyze` throws: a timeout, an HTTP error with its detail as parsed (the code and the reason of
-- `detail`, or none when the body has no such object), or anything else.
pub data InferenceError : Type 0 where
  timeout : InferenceError
  http : (status : ℕ) (detail : Option (String × Option String)) → InferenceError
  other : InferenceError

reason_code : Option String → AnalysisFailureCode
reason_code none = analysis_unavailable
reason_code (some reason) =
    if same reason "rate_limited"
    then analysis_rate_limited
    else (if same reason "daily_quota_exhausted"
        then analysis_daily_quota_exhausted
        else (if same reason "timeout"
            then analysis_upstream_timeout
            else (if same reason "upstream_error"
                then analysis_upstream_error
                else analysis_unavailable)))

unavailable_code : Option (String × Option String) → AnalysisFailureCode
unavailable_code none = analysis_unavailable
unavailable_code (some (code, reason)) =
    if same code "VLM_UNAVAILABLE" then reason_code reason else analysis_unavailable

unfoldable pub analysis_failure_code : InferenceError → AnalysisFailureCode
unfolding unavailable_code reason_code
analysis_failure_code timeout = analysis_timeout
analysis_failure_code (http status detail) =
    if status == 503 then unavailable_code detail else inference_failed
analysis_failure_code other = inference_failed

unfoldable pub should_refund_quota : AnalysisFailureCode → Bool
should_refund_quota analysis_timeout = false
should_refund_quota analysis_unavailable = true
should_refund_quota analysis_rate_limited = true
should_refund_quota analysis_daily_quota_exhausted = true
should_refund_quota analysis_upstream_timeout = true
should_refund_quota analysis_upstream_error = true
should_refund_quota inference_failed = false

-- The times at which the job is marked running, its records are written, and it ends.
pub record Times : Type 0 where
  pub started : ℕ
  pub persisted : ℕ
  pub ended : ℕ

-- Which statements of a run the database refuses, beside a violation of the keys: the records, the
-- completion of the job, and the record of its failure.
pub record Failures : Type 0 where
  pub records : Bool
  pub completion : Bool
  pub failure : Bool

abbrev pub running_patch : Patch
running_patch = record { status = some running; result = none; error_code = none }

-- `failJob(...).catch(...)`: when the failure cannot be recorded, that is logged, and the tables stay.
fail_with : Config → String → AnalysisFailureCode → Bool → Failures → ℕ → Tables → Tables
fail_with config id code refunded failures now db =
    if failures.failure
    then db
    else (fail_job config id (code_text code) now (should_refund_quota code) refunded db).0

-- After the records: done, or a violation of a key, which is no InferenceError.
complete_or_fail :
    Config
    → String
    → AnalysisResult
    → Bool
    → Failures
    → ℕ
    → Tables × Tried Refusal (Unit {0})
    → Tables
complete_or_fail config id result refunded failures now (db, done u) =
    if failures.completion
    then fail_with config id (analysis_failure_code other) refunded failures now db
    else update_job id (completed_patch result) now db
complete_or_fail config id result refunded failures now (db, thrown e) =
    fail_with config id (analysis_failure_code other) refunded failures now db

-- A message: what happens while it is handled. `deletes` is the queue's answer to the deletion after
-- the run; a refusal of the second deletion, in the catch, ends the process with the same tables.
pub record Message : Type 0 where
  pub job_id : String
  pub analysis : Tried InferenceError Records
  pub loads : Bool
  pub refunded : Bool
  pub deletes : Bool
  pub failures : Failures

abbrev pub storage_patch : Patch
storage_patch = record {
  status = some failed;
  result = none;
  error_code = some (some "INPUT_STORAGE_FAILED");
}

module _ (config : Config) (initial_body : String → Person → Bool → String) where
  analyze_and_store :
      String → Tried InferenceError Records → Bool → Failures → Times → Tables → Tables
  analyze_and_store id (done r) refunded failures times db =
      if failures.records
      then fail_with config id (analysis_failure_code other) refunded failures times.ended db
      else complete_or_fail config id r.result refunded failures times.ended (
          persist_analysis_records initial_body id (record r { complete = false }) times.persisted
            db)
  analyze_and_store id (thrown e) refunded failures times db =
      fail_with config id (analysis_failure_code e) refunded failures times.ended db

  unfoldable pub run_analysis_job :
      String → Tried InferenceError Records → Bool → Bool → Failures → Times → Tables → Tables
  unfolding analyze_and_store complete_or_fail fail_with
  run_analysis_job id analysis already_running refunded failures times db =
      elim (find_job id db.jobs) [
        | none ↦ db
        | some j ↦
            analyze_and_store id analysis refunded failures times
              (if already_running then db else update_job id running_patch times.started db)
      ]

  has_input : Option String → Bool
  has_input none = false
  has_input (some key) = not (same key "")

  -- The body of the try, and whether it threw.
  try_job : Message → Times → JobRow → Tables → Tables × Bool
  try_job m times j db =
      if has_input j.input_s3_key && m.loads
      then (run_analysis_job m.job_id m.analysis true m.refunded m.failures times db, not m.deletes)
      else (db, true)

  catch_job : Message → ℕ → Tables × Bool → Tables
  catch_job m caught (db, true) = update_job m.job_id storage_patch caught db
  catch_job m caught (db, false) = db

  -- A message whose body names a job. `caught` is the time of the catch.
  unfoldable pub handle_message : String → ℕ → ℕ → Message → Times → ℕ → Tables → Tables
  unfolding try_job catch_job has_input
  handle_message worker now lease m times caught db =
      let (claimed, row) = claim_job m.job_id worker now lease db in
      elim row [ none ↦ claimed | some j ↦ catch_job m caught (try_job m times j claimed) ]

  -- A message as it is received: without a receipt it is passed over; one whose body names no job is
  -- deleted from the queue, and the tables stay.
  unfoldable pub handle_received :
      Bool → Option Json → String → ℕ → ℕ → Message → Times → ℕ → Tables → Tables
  handle_received has_receipt body worker now lease m times caught db =
      elim (parse_queue_message body) [
        | none ↦ db
        | some id ↦
            if has_receipt
            then handle_message worker now lease (record m { job_id = id }) times caught db
            else db
      ]
