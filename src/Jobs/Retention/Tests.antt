-- ===== src/Jobs/Retention/Tests.antt =====
-- Deletions over two installations.
use standin_app_server.Prelude.{
  ℕ, ◌+◌, ◌*◌, ◌≡◌, refl, [], ◌∷◌, some, String, List, String-discrete, Bool-cases, arith,
}
use standin_app_server.Limits.Policy.{day_ms}
use standin_app_server.Jobs.Rows.{JobRow, find_job}
use standin_app_server.Jobs.Tables.{Tables, OtherRow, analytics_events}
use standin_app_server.Jobs.Samples.{empty_tables, stored_job, ended_job, tuesday}
use standin_app_server.Jobs.Lifecycle.{delete_where, delete_jobs}
use standin_app_server.Jobs.Lifecycle.Deletion.{select_where}
use standin_app_server.Jobs.Retention.{
  Stored, delete_installation_data, delete_expired_rows, is_past_retention, is_past_basic, is_older,
  delete_selected, chosen_by,
}
use standin_app_server.Jobs.Retention.Owners.{
  HasOwners, job_deleted, consent_revoked, swept, delete_each, delete_each-HasOwners,
}
use standin_app_server.Jobs.Retention.Forgotten.{IsForgotten, delete_installation_data-IsForgotten}
use standin_app_server.Jobs.Retention.Expired.{IsSwept, delete_expired_rows-IsSwept}
use standin_app_server.Jobs.Retention.Kept.{KeepsRows, delete_expired_rows-KeepsRows}

-- A job of another installation, under a consent, and an event of each job.
abbrev other_job : JobRow
other_job = record ended_job {
  id = "job_2";
  installation_id = some "inst_2";
  quality_consent_id = some "consent_2";
}

abbrev event : String → String → OtherRow
event id installation = record {
  table = analytics_events;
  job_id = some id;
  installation_id = some installation;
  occurred_at = tuesday + 5000;
  columns = "";
}

abbrev tables : Tables
tables = record empty_tables {
  jobs = ended_job ∷ other_job ∷ [];
  others = event "job_1" "inst_1" ∷ event "job_2" "inst_2" ∷ [];
}

abbrev stored : Stored
stored = record { tables = tables; body_preferences = []; installations = []; receipts = [] }

abbrev ids : List JobRow → List String
ids [] = []
ids (j ∷ js) = j.id ∷ ids js

abbrev later : ℕ
later = tuesday + 100 * day_ms

-- After 100 days only the job under a consent is left.
swept_ids : ids (delete_expired_rows later stored).tables.jobs ≡ "job_2" ∷ []
unfolding delete_expired_rows delete_selected delete_jobs chosen_by delete_where is_past_basic
    is_past_retention is_older stored_job String-discrete Bool-cases
swept_ids = refl

delete_each-HasOwners_example :
    HasOwners
      (delete_each
        (job_deleted "job_1" "inst_1" ∷ swept later ∷ consent_revoked "inst_2" ∷ [])
        stored).tables
unfolding find_job stored_job String-discrete Bool-cases
delete_each-HasOwners_example =
    delete_each-HasOwners
      (job_deleted "job_1" "inst_1" ∷ swept later ∷ consent_revoked "inst_2" ∷ []) stored
      (record {
        outbox = tt;
        people = tt;
        candidates = tt;
        selections = tt;
        body_selections = tt;
        others = (λ e. cc, (λ e. cc, tt));
      })

delete_installation_data-IsForgotten_example :
    IsForgotten "inst_1" stored (delete_installation_data "inst_1" stored)
unfolding find_job stored_job String-discrete Bool-cases
delete_installation_data-IsForgotten_example =
    delete_installation_data-IsForgotten "inst_1" stored (refl, (refl, tt)) (tt, (tt, tt))

delete_expired_rows-IsSwept_example : IsSwept later stored (delete_expired_rows later stored)
unfolding find_job stored_job String-discrete Bool-cases
delete_expired_rows-IsSwept_example = delete_expired_rows-IsSwept later stored (refl, (refl, tt))

delete_expired_rows-KeepsRows_example :
    KeepsRows "job_2" stored.tables (delete_expired_rows later stored).tables
unfolding find_job stored_job String-discrete Bool-cases select_where is_older
delete_expired_rows-KeepsRows_example =
    delete_expired_rows-KeepsRows later "job_2" stored other_job (refl, (refl, tt)) refl refl refl
      (omega arith, tt)
