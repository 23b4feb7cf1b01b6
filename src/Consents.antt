-- ===== src/Consents.antt =====
-- installations/qualityConsent.ts: the consent to a review of what an installation sends. The rows hold
-- the columns that its statements read; the quality columns of a person are one text, none where they
-- are NULL, and times are milliseconds.
pub mod Writes
pub mod Review
pub mod Withdrawn
mod Tests
use standin_app_server.Prelude.{
  ℕ, ◌+◌, ◌*◌, Bool, true, false, not, ◌&&◌, ◌||◌, List, [], ◌∷◌, ◌++◌, if◌then◌else◌, ltb, leb,
  String, Option, none, some, same, Json, Fields, field_of, object_of, text_of, boolean_of, Tried,
  done, thrown,
}

abbrev pub quality_consent_version : String
quality_consent_version = "2026-10-19"

pub record QualityConsentInput : Type 0 where
  pub personal_data : Bool
  pub content_license : Bool

pub record QualityConsent : Type 0 where
  pub personal_data : Bool
  pub content_license : Bool
  pub consent_id : Option String
  pub granted_at : Option ℕ

pub record InstallationRow : Type 0 where
  pub id : String
  pub personal_data : Bool
  pub content_license : Bool
  pub consent_id : Option String
  pub granted_at : Option ℕ
  pub revoked_at : Option ℕ
  pub deletion_requested_at : Option ℕ

pub record ReviewedJob : Type 0 where
  pub id : String
  pub installation_id : String
  pub consent_id : Option String
  pub cut_summary : Option String
  pub created_at : ℕ

pub record PersonQuality : Type 0 where
  pub job_id : String
  pub quality : Option String

-- A row of analytics_events, export_events or job_feedback.
pub record QualityRow : Type 0 where
  pub installation_id : String
  pub job_id : Option String
  pub consent_id : Option String
  pub occurred_at : ℕ

pub record Receipt : Type 0 where
  pub receipt_id : String
  pub subject_hash : String
  pub version : String
  pub personal_data : Bool
  pub content_license : Bool
  pub recorded_at : ℕ
  pub ended_at : Option ℕ

pub record ConsentDb : Type 0 where
  pub installations : List InstallationRow
  pub jobs : List ReviewedJob
  pub people : List PersonQuality
  pub analytics_events : List QualityRow
  pub export_events : List QualityRow
  pub job_feedback : List QualityRow
  pub receipts : List Receipt
  pub internal_installations : List String
  pub hides_internal : Bool

abbrev pub both : Option Bool → Option Bool → Option QualityConsentInput
both (some p) (some c) = some (record { personal_data = p; content_license = c })
both none c = none
both (some p) none = none

abbrev pub is_version : Option String → Bool
is_version none = false
is_version (some v) = same v quality_consent_version

unfoldable pub parse_fields : Option Fields → Option QualityConsentInput
parse_fields none = none
parse_fields (some v) =
    if is_version (text_of (field_of "version" v))
    then both (boolean_of (field_of "personalData" v)) (boolean_of (field_of "contentLicense" v))
    else none

unfoldable pub parse_quality_consent : Option Json → Option QualityConsentInput
parse_quality_consent value = parse_fields (object_of value)

unfoldable pub find_installation : String → List InstallationRow → Option InstallationRow
find_installation id [] = none
find_installation id (r ∷ rs) = if same r.id id then some r else find_installation id rs

unfoldable pub consent_of : Option InstallationRow → QualityConsent
consent_of none = record {
  personal_data = false;
  content_license = false;
  consent_id = none;
  granted_at = none;
}
consent_of (some r) = record {
  personal_data = r.personal_data;
  content_license = r.content_license;
  consent_id = r.consent_id;
  granted_at = r.granted_at;
}

unfoldable pub read_quality_consent : ConsentDb → String → QualityConsent
read_quality_consent db id = consent_of (find_installation id db.installations)

abbrev pub same_bool : Bool → Bool → Bool
same_bool true b = b
same_bool false b = not b

abbrev pub is_some : {A : Type 0} → Option A → Bool
is_some none = false
is_some (some a) = true

abbrev pub kept_if : {A : Type 0} → Bool → A → Option A
kept_if true a = some a
kept_if false a = none
