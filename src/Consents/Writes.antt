-- ===== src/Consents/Writes.antt =====
-- installations/qualityConsent.ts: a change of the consent.
use standin_app_server.Prelude.{
  ℕ, ◌+◌, ◌*◌, Bool, false, not, ◌&&◌, ◌||◌, List, [], ◌∷◌, ◌++◌, if◌then◌else◌, leb, String,
  Option, none, some, same, Tried, done, thrown,
}
use standin_app_server.Consents.{
  ConsentDb, InstallationRow, PersonQuality, QualityConsent, QualityConsentInput, QualityRow,
  Receipt, ReviewedJob, consent_of, find_installation, is_some, kept_if, quality_consent_version,
  same_bool,
}

unfoldable pub set_consent :
    String
    → QualityConsentInput
    → Option String
    → Option ℕ
    → List InstallationRow
    → List InstallationRow
set_consent id input consent_id granted [] = []
set_consent id input consent_id granted (r ∷ rs) =
    let rest = set_consent id input consent_id granted rs in
    if same r.id id
    then record r {
      personal_data = input.personal_data;
      content_license = input.content_license;
      consent_id = consent_id;
      granted_at = granted;
    }
      ∷ rest
    else r ∷ rest

unfoldable pub clear_jobs : String → List ReviewedJob → List ReviewedJob
clear_jobs id [] = []
clear_jobs id (j ∷ js) =
    let rest = clear_jobs id js in
    if same j.installation_id id
    then record j { consent_id = none; cut_summary = none } ∷ rest
    else j ∷ rest

-- Whether the job is one of the installation.
unfoldable pub has_job : String → String → List ReviewedJob → Bool
has_job id job [] = false
has_job id job (j ∷ js) = (same j.id job && same j.installation_id id) || has_job id job js

unfoldable pub clear_people : String → List ReviewedJob → List PersonQuality → List PersonQuality
clear_people id jobs [] = []
clear_people id jobs (p ∷ ps) =
    let rest = clear_people id jobs ps in
    if has_job id p.job_id jobs then record p { quality = none } ∷ rest else p ∷ rest

unfoldable pub delete_of : String → List QualityRow → List QualityRow
delete_of id [] = []
delete_of id (r ∷ rs) =
    let rest = delete_of id rs in if same r.installation_id id then rest else r ∷ rest

abbrev pub day_ms : ℕ
day_ms = 86400000

-- A job of the installation that only the review still kept.
unfoldable pub is_old : String → ℕ → ReviewedJob → Bool
is_old id now j = same j.installation_id id && leb (j.created_at + 90 * day_ms) now

unfoldable pub delete_old : String → ℕ → List ReviewedJob → List ReviewedJob
delete_old id now [] = []
delete_old id now (j ∷ js) =
    let rest = delete_old id now js in if is_old id now j then rest else j ∷ rest

unfoldable pub is_deleted : String → ℕ → String → List ReviewedJob → Bool
is_deleted id now job [] = false
is_deleted id now job (j ∷ js) = (same j.id job && is_old id now j) || is_deleted id now job js

unfoldable pub delete_people :
    String → ℕ → List ReviewedJob → List PersonQuality → List PersonQuality
delete_people id now jobs [] = []
delete_people id now jobs (p ∷ ps) =
    let rest = delete_people id now jobs ps in
    if is_deleted id now p.job_id jobs then rest else p ∷ rest

unfoldable pub end_receipts : String → ℕ → List Receipt → List Receipt
end_receipts subject now [] = []
end_receipts subject now (r ∷ rs) =
    let rest = end_receipts subject now rs in
    if same r.subject_hash subject && not (is_some r.ended_at)
    then record r { ended_at = some now } ∷ rest
    else r ∷ rest

-- The time and the ids of a write.
pub record Write : Type 0 where
  pub now : ℕ
  pub consent_id : String
  pub receipt_id : String

pub data ConsentError : Type 0 where
  installation_gone : ConsentError

module _ (subject_hash : String → String) where
  unfoldable pub receipt_of : String → QualityConsentInput → Bool → Write → Receipt
  receipt_of id input enabled w = record {
    receipt_id = w.receipt_id;
    subject_hash = subject_hash id;
    version = quality_consent_version;
    personal_data = input.personal_data;
    content_license = input.content_license;
    recorded_at = w.now;
    ended_at = kept_if (not enabled) w.now;
  }

  unfoldable pub store_consent : String → QualityConsentInput → Bool → Write → ConsentDb → ConsentDb
  store_consent id input enabled w db = record db {
    installations =
        set_consent id input (kept_if enabled w.consent_id) (kept_if enabled w.now)
          db.installations;
    jobs = delete_old id w.now (clear_jobs id db.jobs);
    people = delete_people id w.now (clear_jobs id db.jobs) (clear_people id db.jobs db.people);
    analytics_events = delete_of id db.analytics_events;
    export_events = delete_of id db.export_events;
    job_feedback = delete_of id db.job_feedback;
    receipts =
        end_receipts (subject_hash id) w.now db.receipts ++ receipt_of id input enabled w ∷ [];
  }

  unfoldable pub write_found :
      ConsentDb
      → String
      → QualityConsentInput
      → Write
      → Option InstallationRow
      → Tried ConsentError (ConsentDb × QualityConsent)
  write_found db id input w none = thrown installation_gone
  write_found db id input w (some row) =
      let previous = consent_of (some row) in
      let enabled = input.personal_data && input.content_license in
      if same_bool previous.personal_data input.personal_data
        && same_bool previous.content_license input.content_license
      then done (db, previous)
      else done (
        store_consent id input enabled w db,
        record {
          personal_data = input.personal_data;
          content_license = input.content_license;
          consent_id = kept_if enabled w.consent_id;
          granted_at = kept_if enabled w.now;
        },
      )

  unfoldable pub write_quality_consent :
      ConsentDb
      → String
      → QualityConsentInput
      → Write
      → Tried ConsentError (ConsentDb × QualityConsent)
  write_quality_consent db id input w =
      write_found db id input w (find_installation id db.installations)
