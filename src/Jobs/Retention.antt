-- ===== src/Jobs/Retention.antt =====
-- retention.ts: deleting what belongs to an installation, and what is older than its time.
pub mod Purged
pub mod Owners
pub mod Forgotten
pub mod Expired
pub mod Kept
mod Tests
use standin_app_server.Prelude.{
  ℕ, ◌+◌, ◌*◌, Bool, true, false, not, ◌&&◌, ◌||◌, List, [], ◌∷◌, if◌then◌else◌, ltb, String,
  Option, none, some, same,
}
use standin_app_server.Limits.Policy.{day_ms}
use standin_app_server.Limits.Counters.{
  UsageScope, Counter, installation_week, global_day, ip_register, ip_analyze, semantic_search,
  hand_preview, semantic_model_preview,
}
use standin_app_server.Consents.{Receipt}
use standin_app_server.Jobs.Rows.{JobRow, is_some_of, is_none}
use standin_app_server.Jobs.Tables.{
  Tables, OtherTable, body_mutations, export_events, job_feedback, analytics_events,
  admin_access_audit, refined_artifacts, OtherRow,
}
use standin_app_server.Jobs.Lifecycle.{delete_where, delete_jobs}

-- A row of body_preferences.
pub record PreferenceRow : Type 0 where
  pub installation_id : String
  pub value : String

-- A row of installations, with the columns of the acquisition.
pub record AcquisitionRow : Type 0 where
  pub id : String
  pub acquisition_creative : Option String
  pub acquisition_version : Option String
  pub acquisition_consented_at : Option ℕ

-- All that the two deletions write.
pub record Stored : Type 0 where
  pub tables : Tables
  pub body_preferences : List PreferenceRow
  pub installations : List AcquisitionRow
  pub receipts : List Receipt

-- `id IN (SELECT id FROM jobs WHERE ...)`
unfoldable pub chosen_by : (JobRow → Bool) → List JobRow → String → Bool
chosen_by test [] id = false
chosen_by test (j ∷ js) id = (same j.id id && test j) || chosen_by test js id

unfoldable pub delete_selected : (JobRow → Bool) → Tables → Tables
delete_selected test db = delete_jobs (chosen_by test db.jobs) db

abbrev pub is_of_installation : String → JobRow → Bool
is_of_installation installation j = is_some_of j.installation_id installation

-- INSTALLATION_SCOPED_TABLES, without body_preferences and confirmed_selections.
unfoldable pub is_installation_scoped : OtherTable → Bool
is_installation_scoped body_mutations = true
is_installation_scoped export_events = true
is_installation_scoped job_feedback = true
is_installation_scoped analytics_events = true
is_installation_scoped admin_access_audit = true
is_installation_scoped refined_artifacts = false

unfoldable pub is_scoped_to : String → OtherRow → Bool
is_scoped_to installation r =
    is_installation_scoped r.table && is_some_of r.installation_id installation

-- The scopes whose subject is an installation.
unfoldable pub counts_installation : UsageScope → Bool
counts_installation installation_week = true
counts_installation semantic_search = true
counts_installation hand_preview = true
counts_installation semantic_model_preview = true
counts_installation global_day = false
counts_installation ip_register = false
counts_installation ip_analyze = false

unfoldable pub is_counter_of : String → Counter → Bool
is_counter_of installation c = counts_installation c.key.scope && same c.key.subject installation

unfoldable pub delete_installation_data : String → Stored → Stored
delete_installation_data installation s =
    let t = delete_selected (is_of_installation installation) s.tables in
    record s {
      tables = record t {
        selections = delete_where (λ r. same r.installation_id installation) t.selections;
        others = delete_where (is_scoped_to installation) t.others;
        counters = delete_where (is_counter_of installation) t.counters;
      };
      body_preferences = delete_where (λ r. same r.installation_id installation) s.body_preferences;
    }

abbrev pub retention_days : ℕ
retention_days = 365

-- `time < now - days`, without the subtraction.
unfoldable pub is_older : ℕ → ℕ → ℕ → Bool
is_older days now time = ltb (time + days * day_ms) now

-- NULL is not older.
abbrev pub is_some_older : ℕ → ℕ → Option ℕ → Bool
is_some_older days now none = false
is_some_older days now (some time) = is_older days now time

unfoldable pub forget_acquisition : ℕ → AcquisitionRow → AcquisitionRow
forget_acquisition now r =
    if is_some_older 90 now r.acquisition_consented_at
    then record r { acquisition_creative = none; acquisition_version = none }
    else r

unfoldable pub forget_acquisitions : ℕ → List AcquisitionRow → List AcquisitionRow
forget_acquisitions now [] = []
forget_acquisitions now (r ∷ rs) = forget_acquisition now r ∷ forget_acquisitions now rs

-- installation_id IS NOT NULL AND created_at < cutoff
unfoldable pub is_past_retention : ℕ → JobRow → Bool
is_past_retention now j =
    not (is_none j.installation_id) && is_older retention_days now j.created_at

-- installation_id IS NOT NULL AND quality_consent_id IS NULL AND created_at < basicCutoff
unfoldable pub is_past_basic : ℕ → JobRow → Bool
is_past_basic now j =
    not (is_none j.installation_id)
    && (is_none j.quality_consent_id && is_older 90 now j.created_at)

-- EVENT_LOG_TABLES
unfoldable pub is_event_log : OtherTable → Bool
is_event_log analytics_events = true
is_event_log export_events = true
is_event_log admin_access_audit = true
is_event_log body_mutations = false
is_event_log job_feedback = false
is_event_log refined_artifacts = false

unfoldable pub is_old_event : ℕ → OtherRow → Bool
is_old_event now r = is_event_log r.table && is_older retention_days now r.occurred_at

unfoldable pub delete_expired_rows : ℕ → Stored → Stored
delete_expired_rows now s =
    let t =
      delete_selected (is_past_basic now) (delete_selected (is_past_retention now) s.tables) in
    record s {
      tables = record t { others = delete_where (is_old_event now) t.others };
      installations = forget_acquisitions now s.installations;
      receipts = delete_where (λ r. is_some_older retention_days now r.ended_at) s.receipts;
    }
