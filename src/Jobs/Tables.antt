-- ===== src/Jobs/Tables.antt =====
-- All the tables of a job, and db.ts `transaction`.
use standin_app_server.Prelude.{ℕ, Bool, List, String, Option}
pub use standin_app_server.Prelude.{Tried, done, thrown, ◌>>=◌, Tried-cases}
use standin_app_server.Limits.Counters.{Counter}
use standin_app_server.Limits.Policy.{Limit}
use standin_app_server.Jobs.Rows.{JobRow, OutboxRow}

-- A row of analysis_people. The columns of `signal` are the quality signals of the person.
pub record PersonRow : Type 0 where
  pub job_id : String
  pub person_index : ℕ
  pub columns : String
  pub slot_origin : Option String
  pub lower_body_observed : Bool
  pub refine_context_json : Option String
  pub raw_scores_json : Option String
  pub signal : Option String

pub record CandidateRow : Type 0 where
  pub job_id : String
  pub person_index : ℕ
  pub candidate_id : String
  pub pose_id : Option String
  pub rank : ℕ
  pub view : String
  pub columns : String

pub record SelectionRow : Type 0 where
  pub job_id : String
  pub person_index : ℕ
  pub installation_id : String
  pub candidate_id : String
  pub rank : ℕ
  pub confirmed_at : ℕ

pub record BodySelectionRow : Type 0 where
  pub job_id : String
  pub person_index : ℕ
  pub value : String

-- The other tables with a job_id column.
pub data OtherTable : Type 0 where
  body_mutations export_events job_feedback analytics_events admin_access_audit refined_artifacts :
      OtherTable

-- `occurred_at` is the time of the row; `installation_id` is none where the table has no such column.
pub record OtherRow : Type 0 where
  pub table : OtherTable
  pub job_id : Option String
  pub installation_id : Option String
  pub occurred_at : ℕ
  pub columns : String

-- `consents` is the query of lockQualityConsent: the id of an installation's valid consent.
pub record Tables : Type 0 where
  pub jobs : List JobRow
  pub outbox : List OutboxRow
  pub people : List PersonRow
  pub candidates : List CandidateRow
  pub selections : List SelectionRow
  pub body_selections : List BodySelectionRow
  pub others : List OtherRow
  pub counters : List Counter
  pub consents : String → Option String

pub record Config : Type 0 where
  pub quota_installation_concurrent : Limit
  pub quota_installation_weekly : Limit
  pub quota_global_daily : Limit
  pub quota_exempt_installations : List String
  pub analysis_stale_after_seconds : ℕ
  pub body_selection_enabled : Bool

-- COMMIT keeps the new tables, ROLLBACK the old ones; the error is thrown on.
abbrev pub settle : {E A : Type 0} → Tables → Tried E (Tables × A) → Tables × Tried E A
settle db (done (db', a)) = (db', done a)
settle db (thrown e) = (db, thrown e)

unfoldable pub transaction :
    {E A : Type 0} → Tables → (Tables → Tried E (Tables × A)) → Tables × Tried E A
transaction db body = settle db (body db)
