-- ===== src/Jobs/Create.antt =====
-- jobs/store.ts: insertJob, createJob, createJobWithLimits, createSemanticJob and
-- refundAnalysisQuota. The new id is an argument (`randomUUID`), so are the times that the code reads
-- and the body policy that body-selection/store.ts computes for the installation.
pub mod Steps
pub mod Quota
use standin_app_server.Prelude.{
  ℕ, suc, ◌+◌, ◌-◌, ◌*◌, ◌≤◌, ◌<◌, ◌≡◌, refl, Bool, true, false, not, ◌&&◌, List, [], ◌∷◌, ◌++◌,
  arith, ite, if◌then◌else◌, ltb, leb, String, Option, none, some, Text,
}
use standin_app_server.Limits.Policy.{
  UsageWindow, Limit, whole, is_disabled, limit_value, pos_of_enabled, LimitExceeded,
  concurrency_limit, weekly_quota_exceeded, global_quota_exceeded, daily_window, weekly_window,
  seconds_until, kst_iso_string, is_quota_exempt,
}
use standin_app_server.Limits.Counters.{
  UsageScope, installation_week, global_day, Counter, try_consume, refund,
}
use standin_app_server.Jobs.Rows.{
  JobStatus, queued, running, JobSource, semantic, JobRow, count_running, update_where, is_none,
  same,
}
use standin_app_server.Jobs.Tables.{Tables, Config, Tried, done, thrown, ◌>>=◌, settle, transaction}

pub record JobInput : Type 0 where
  pub installation_id : String
  pub source : JobSource
  pub mime : String
  pub size : ℕ
  pub width : Option ℕ
  pub height : Option ℕ

unfoldable pub source_status : JobSource → JobStatus
source_status semantic = running
source_status _ = queued

unfoldable pub initial_status : Option JobInput → JobStatus
initial_status none = queued
initial_status (some input) = source_status input.source

abbrev pub field : {A : Type 0} → (JobInput → A) → Option JobInput → Option A
field f none = none
field f (some input) = some (f input)

abbrev pub joined : {A : Type 0} → (JobInput → Option A) → Option JobInput → Option A
joined f none = none
joined f (some input) = f input

-- The new row; the columns of the input are null without one.
unfoldable pub new_job :
    Tables → String → ℕ → Option String → Option String → Option JobInput → JobRow
new_job db id now user rerun_of input = record {
  id = id;
  user_id = user;
  status = initial_status input;
  created_at = now;
  updated_at = now;
  result_json = none;
  error_code = none;
  rerun_of = rerun_of;
  installation_id = field (λ i. i.installation_id) input;
  source = field (λ i. i.source) input;
  input_s3_key = none;
  input_sha256 = none;
  input_stored_at = none;
  input_mime = field (λ i. i.mime) input;
  input_size = field (λ i. i.size) input;
  input_width = joined (λ i. i.width) input;
  input_height = joined (λ i. i.height) input;
  quality_consent_id = joined (λ i. db.consents i.installation_id) input;
  body_policy_json = none;
  started_at = none;
  completed_at = none;
  lease_owner = none;
  lease_expires_at = none;
  attempt_count = 0;
  inference_metadata_json = none;
  cut_summary_json = none;
}

-- captureBodyPolicy: UPDATE jobs SET body_policy_json WHERE id AND body_policy_json IS NULL.
unfoldable pub capture_body_policy : String → String → List JobRow → List JobRow
capture_body_policy id policy jobs =
    (update_where id (λ j. is_none j.body_policy_json)
      (λ j. record j { body_policy_json = some policy }) jobs).0

abbrev pub names_installation : Option JobInput → Bool
names_installation none = false
names_installation (some input) = not (same input.installation_id "")

unfoldable pub insert_job :
    Config
    → String
    → String
    → ℕ
    → Option String
    → Option String
    → Option JobInput
    → Tables
    → Tables × JobRow
insert_job config policy id now user rerun_of input db =
    let job = new_job db id now user rerun_of input in
    let rows = job ∷ db.jobs in
    (
      record db {
        jobs =
            if config.body_selection_enabled && names_installation input
            then capture_body_policy id policy rows
            else rows;
      },
      job,
    )

-- `createJob`: nothing throws a limit.
unfoldable pub create_job :
    Config
    → String
    → String
    → ℕ
    → Option String
    → Option String
    → Option JobInput
    → Tables
    → Tables × JobRow
create_job config policy id now user rerun_of input db =
    insert_job config policy id now user rerun_of input db

unfoldable pub create_semantic_job :
    Config → String → String → ℕ → String → Option String → Tables → Tables × JobRow
create_semantic_job config policy id now installation user db =
    create_job config policy id now user none
      (some (record {
        installation_id = installation;
        source = semantic;
        mime = "application/json";
        size = 0;
        width = none;
        height = none;
      }))
      db

abbrev pub concurrency_retry_seconds : ℕ
concurrency_retry_seconds = 10

abbrev pub stale_cutoff : Config → ℕ → ℕ
stale_cutoff config now_ms = now_ms - config.analysis_stale_after_seconds * 1000

-- Whether a limit of the configuration is applied to an installation.
unfoldable pub applies : Config → String → Limit → Bool
applies config installation limit =
    not (is_quota_exempt installation config.quota_exempt_installations) && not (is_disabled limit)

pub pos_of_applies :
    (config : Config) (installation : String) (limit : Limit)
    → applies config installation limit ≡ true
    → 0 < limit_value limit
unfolding applies
pos_of_applies config installation limit h = pos_of_enabled limit (ground arith)

unfoldable pub check_concurrency : Config → ℕ → String → Tables → Tried LimitExceeded Tables
check_concurrency config now_ms installation db =
    let limit = config.quota_installation_concurrent in
    if applies config installation limit
    then (if leb (limit_value limit)
          (count_running installation (stale_cutoff config now_ms) db.jobs)
        then thrown (record {
          code = concurrency_limit;
          retry_after_seconds = concurrency_retry_seconds;
          limit = some limit;
          retry_at = none;
        })
        else done db)
    else done db

-- One counter: its limit, and the refusal when no row comes back.
unfoldable pub consume :
    Config
    → String
    → UsageScope
    → String
    → UsageWindow
    → Limit
    → LimitExceeded
    → Tables
    → Tried LimitExceeded Tables
consume config installation scope subject window limit refusal db =
    let (counters, ok) = try_consume scope subject window (limit_value limit) db.counters in
    if applies config installation limit
    then (if ok then done (record db { counters = counters }) else thrown refusal)
    else done db

abbrev pub weekly_refusal : Config → ℕ → LimitExceeded
weekly_refusal config now_ms = record {
  code = weekly_quota_exceeded;
  retry_after_seconds = seconds_until (weekly_window now_ms).reset_at_ms now_ms;
  limit = some config.quota_installation_weekly;
  retry_at = some (kst_iso_string (weekly_window now_ms).reset_at_ms);
}

abbrev pub daily_refusal : ℕ → LimitExceeded
daily_refusal now_ms = record {
  code = global_quota_exceeded;
  retry_after_seconds = seconds_until (daily_window now_ms).reset_at_ms now_ms;
  limit = none;
  retry_at = some (kst_iso_string (daily_window now_ms).reset_at_ms);
}

unfoldable pub consume_weekly : Config → ℕ → String → Tables → Tried LimitExceeded Tables
consume_weekly config now_ms installation =
    consume config installation installation_week installation (weekly_window now_ms)
      config.quota_installation_weekly (weekly_refusal config now_ms)

unfoldable pub consume_daily : Config → ℕ → String → Tables → Tried LimitExceeded Tables
consume_daily config now_ms installation =
    consume config installation global_day "all" (daily_window now_ms) config.quota_global_daily
      (daily_refusal now_ms)

-- `now_ms` is the time of the limits, `at` the later time of the insertion. The advisory lock makes
-- the transactions of an installation follow one another, as the calls of this function do.
unfoldable pub create_job_with_limits :
    Config
    → String
    → String
    → ℕ
    → ℕ
    → Option String
    → JobInput
    → Tables
    → Tables × Tried LimitExceeded JobRow
create_job_with_limits config policy id now_ms at user input db = transaction db λ db. do
  db₁ ← check_concurrency config now_ms input.installation_id db
  db₂ ← consume_weekly config now_ms input.installation_id db₁
  db₃ ← consume_daily config now_ms input.installation_id db₂
  done (insert_job config policy id at user none (some input) db₃)

-- The windows of a refund are those of the time of the refund.
unfoldable pub refund_analysis_quota : Config → ℕ → String → Tables → Tables
refund_analysis_quota config now_ms installation db =
    let weekly =
      if applies config installation config.quota_installation_weekly
      then refund installation_week installation (weekly_window now_ms) db.counters
      else db.counters in
    record db {
      counters =
          if applies config installation config.quota_global_daily
          then refund global_day "all" (daily_window now_ms) weekly
          else weekly;
    }
