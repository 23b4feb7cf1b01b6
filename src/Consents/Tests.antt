-- ===== src/Consents/Tests.antt =====
-- An installation that withdraws a consent.
use standin_app_server.Prelude.{
  ◌≡◌, refl, true, false, [], ◌∷◌, String, String-discrete, none, some, same, done, All,
}
use standin_app_server.Consents.{
  QualityConsentInput, QualityConsent, ConsentDb, find_installation, consent_of,
  read_quality_consent,
}
use standin_app_server.Consents.Writes.{Write, store_consent, write_found, write_quality_consent}
use standin_app_server.Consents.Review.{
  lock_quality_consent, quality_review_jobs, review_jobs, any_reviews, reviews_job, is_reviewed,
  is_internal, same_id,
}
use standin_app_server.Consents.Withdrawn.{write_quality_consent-locks, write_quality_consent-hides}

abbrev hash : String → String
hash id = "subject"

abbrev start : ConsentDb
start = record {
  installations =
      record {
        id = "inst";
        personal_data = true;
        content_license = true;
        consent_id = some "c1";
        granted_at = some 1;
        revoked_at = none;
        deletion_requested_at = none;
      }
      ∷ [];
  jobs =
      record {
        id = "job";
        installation_id = "inst";
        consent_id = some "c1";
        cut_summary = some "cut";
        created_at = 5;
      }
      ∷ [];
  people = record { job_id = "job"; quality = some "scores" } ∷ [];
  analytics_events = [];
  export_events = [];
  job_feedback = [];
  receipts =
      record {
        receipt_id = "r1";
        subject_hash = "subject";
        version = "2026-10-19";
        personal_data = true;
        content_license = true;
        recorded_at = 1;
        ended_at = none;
      }
      ∷ [];
  internal_installations = [];
  hides_internal = true;
}

abbrev withdrawal : QualityConsentInput
withdrawal = record { personal_data = false; content_license = true }

abbrev write : Write
write = record { now = 10; consent_id = "c2"; receipt_id = "r2" }

abbrev answer : QualityConsent
answer = record {
  personal_data = false;
  content_license = true;
  consent_id = none;
  granted_at = none;
}

abbrev after : ConsentDb
after = store_consent hash "inst" withdrawal false write start

-- The job is reviewed before the withdrawal.
reviewed : quality_review_jobs false 6 start ≡ start.jobs
unfolding quality_review_jobs review_jobs any_reviews reviews_job is_reviewed is_internal
    String-discrete same_id
reviewed = refl

written : write_quality_consent hash start "inst" withdrawal write ≡ done (after, answer)
unfolding write_quality_consent write_found find_installation String-discrete consent_of
written = refl

write_quality_consent-locks_example :
    lock_quality_consent 11 after "inst" (some (some "c1")) (some "job") ≡ none
write_quality_consent-locks_example =
    write_quality_consent-locks hash start after "inst" withdrawal write answer 11
      (some (some "c1")) (some "job") refl written

write_quality_consent-hides_example :
    All (λ j. same j.installation_id "inst" ≡ false) (quality_review_jobs false 6 after)
unfolding read_quality_consent consent_of find_installation String-discrete
write_quality_consent-hides_example =
    write_quality_consent-hides hash start after "inst" withdrawal write answer 6 refl written
