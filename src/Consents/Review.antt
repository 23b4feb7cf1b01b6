-- ===== src/Consents/Review.antt =====
-- installations/qualityConsent.ts: which writes and jobs a consent covers.
use standin_app_server.Prelude.{
  ℕ, ◌+◌, ◌*◌, Bool, false, not, ◌&&◌, ◌||◌, List, [], ◌∷◌, if◌then◌else◌, ltb, String, Option,
  none, some, same,
}
use standin_app_server.Consents.{
  ConsentDb, InstallationRow, ReviewedJob, find_installation, is_some,
}
use standin_app_server.Consents.Writes.{day_ms}

unfoldable pub is_open : InstallationRow → Bool
is_open r =
    (r.personal_data && r.content_license)
    && (is_some r.consent_id
        && (not (is_some r.revoked_at) && not (is_some r.deletion_requested_at)))

unfoldable pub same_id : Option String → Option String → Bool
same_id (some a) (some b) = same a b
same_id none b = false
same_id (some a) none = false

abbrev pub year_ms : ℕ
year_ms = 365 * day_ms

-- A job of the installation under the consent, of the last 365 days.
unfoldable pub is_covered : ℕ → InstallationRow → ReviewedJob → Bool
is_covered now r j =
    same j.installation_id r.id
    && (same_id j.consent_id r.consent_id && ltb now (j.created_at + year_ms))

unfoldable pub covers_job : ℕ → InstallationRow → String → List ReviewedJob → Bool
covers_job now r job [] = false
covers_job now r job (j ∷ js) = (same j.id job && is_covered now r j) || covers_job now r job js

-- `consentId !== undefined && row.quality_consent_id !== consentId`
abbrev pub is_other : Option (Option String) → Option String → Bool
is_other none current = false
is_other (some wanted) current = not (same_id wanted current)

abbrev pub is_missing : ℕ → InstallationRow → Option String → List ReviewedJob → Bool
is_missing now r none jobs = false
is_missing now r (some job) jobs = not (covers_job now r job jobs)

unfoldable pub lock_row :
    ℕ
    → ConsentDb
    → Option (Option String)
    → Option String
    → Option InstallationRow
    → Option InstallationRow
lock_row now db consent job none = none
lock_row now db consent job (some r) =
    if not (is_open r) || (is_other consent r.consent_id || is_missing now r job db.jobs)
    then none
    else some r

-- The row of a consent that a quality write may go by, with its id and time.
unfoldable pub lock_quality_consent :
    ℕ → ConsentDb → String → Option (Option String) → Option String → Option InstallationRow
lock_quality_consent now db id consent job =
    lock_row now db consent job (find_installation id db.installations)

unfoldable pub is_internal : String → List String → Bool
is_internal id [] = false
is_internal id (i ∷ is) = same i id || is_internal id is

-- The view of the installations that a reviewer sees.
unfoldable pub is_reviewed : Bool → ConsentDb → InstallationRow → Bool
is_reviewed without_consent db r =
    ((without_consent || ((r.personal_data && r.content_license) && is_some r.consent_id))
      && (not (is_some r.revoked_at) && not (is_some r.deletion_requested_at)))
    && (not (is_internal r.id db.internal_installations) || not db.hides_internal)

unfoldable pub reviews_job : Bool → ℕ → ConsentDb → ReviewedJob → InstallationRow → Bool
reviews_job without_consent now db j r =
    is_reviewed without_consent db r
    && (same j.installation_id r.id
        && ((without_consent || same_id j.consent_id r.consent_id)
            && ltb now (j.created_at + year_ms)))

unfoldable pub any_reviews : Bool → ℕ → ConsentDb → ReviewedJob → List InstallationRow → Bool
any_reviews without_consent now db j [] = false
any_reviews without_consent now db j (r ∷ rs) =
    reviews_job without_consent now db j r || any_reviews without_consent now db j rs

unfoldable pub review_jobs : Bool → ℕ → ConsentDb → List ReviewedJob → List ReviewedJob
review_jobs without_consent now db [] = []
review_jobs without_consent now db (j ∷ js) =
    let rest = review_jobs without_consent now db js in
    if any_reviews without_consent now db j db.installations then j ∷ rest else rest

-- The view of the jobs that a reviewer sees.
unfoldable pub quality_review_jobs : Bool → ℕ → ConsentDb → List ReviewedJob
quality_review_jobs without_consent now db = review_jobs without_consent now db db.jobs
