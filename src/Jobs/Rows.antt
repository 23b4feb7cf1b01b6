-- ===== src/Jobs/Rows.antt =====
-- The rows of the tables that jobs/store.ts writes, and the statements on the table of jobs: an
-- UPDATE of the row of an id, a SELECT by id, the count of running jobs. Times are milliseconds (the
-- columns hold `toISOString()` texts, whose order is that of the times).
pub mod Laws
use standin_app_server.Prelude.{
  ℕ, suc, ◌+◌, ◌≤◌, ◌<◌, ◌≡◌, refl, Bool, true, false, not, ◌&&◌, ◌||◌, List, [], ◌∷◌, arith, ite,
  if◌then◌else◌, ltb, String, String-discrete, Option, none, some, Json,
}
pub use standin_app_server.Prelude.{same}
use standin_app_server.Hands.{HandSelection}
use standin_app_server.Scopes.{RawScope}
use standin_app_server.Limits.Counters.{Counter}

pub data JobStatus : Type 0 where
  queued running completed failed : JobStatus

pub data JobSource : Type 0 where
  capture file clipboard semantic : JobSource

-- `persons` is the part of a result that the statements read; `text` is the rest, as stored.
pub record Candidate : Type 0 where
  pub id : String
  pub pose_id : Option String
  pub rank : ℕ
  pub view : String
  pub columns : String

-- A `posePresentation`: its version and scope, and the ids of its groups of candidates.
pub record Presentation : Type 0 where
  pub version : String
  pub output_scope : Option String
  pub library_candidates : List String
  pub review_candidates : List String
  pub generated_candidates : List String

pub record Person : Type 0 where
  pub person_index : ℕ
  pub columns : String
  pub candidates : List Candidate
  pub hands : Option Json
  pub hand_selection : Option HandSelection
  pub output_scope : Option RawScope
  pub presentation : Option Presentation

pub record AnalysisResult : Type 0 where
  pub is_semantic : Bool
  pub image_size : Option (ℕ × ℕ)
  pub persons : List Person
  pub inference_metadata : String
  pub text : String

pub record JobRow : Type 0 where
  pub id : String
  pub user_id : Option String
  pub status : JobStatus
  pub created_at : ℕ
  pub updated_at : ℕ
  pub result_json : Option AnalysisResult
  pub error_code : Option String
  pub rerun_of : Option String
  pub installation_id : Option String
  pub source : Option JobSource
  pub input_s3_key : Option String
  pub input_sha256 : Option String
  pub input_stored_at : Option ℕ
  pub input_mime : Option String
  pub input_size : Option ℕ
  pub input_width : Option ℕ
  pub input_height : Option ℕ
  pub quality_consent_id : Option String
  pub body_policy_json : Option String
  pub started_at : Option ℕ
  pub completed_at : Option ℕ
  pub lease_owner : Option String
  pub lease_expires_at : Option ℕ
  pub attempt_count : ℕ
  pub inference_metadata_json : Option String
  pub cut_summary_json : Option String

pub record OutboxRow : Type 0 where
  pub job_id : String
  pub created_at : ℕ
  pub published_at : Option ℕ
  pub publish_attempts : ℕ

unfoldable pub in_progress : JobStatus → Bool
in_progress queued = true
in_progress running = true
in_progress completed = false
in_progress failed = false

abbrev pub is_some_of : Option String → String → Bool
is_some_of none b = false
is_some_of (some a) b = same a b

abbrev pub is_none {ℓ} : {A : Type ℓ} → Option A → Bool
is_none none = true
is_none (some a) = false

is_semantic_source : Option JobSource → Bool
is_semantic_source (some semantic) = true
is_semantic_source _ = false

-- SELECT * FROM jobs WHERE id = $1
unfoldable pub find_job : String → List JobRow → Option JobRow
find_job id [] = none
find_job id (j ∷ js) = ite (String-discrete j.id id) (some j) (find_job id js)

-- UPDATE jobs SET ... WHERE id = $1 AND ... RETURNING *; an id has at most one row.
unfoldable pub update_where :
    String → (JobRow → Bool) → (JobRow → JobRow) → List JobRow → List JobRow × Option JobRow
update_where id test set [] = ([], none)
update_where id test set (j ∷ js) =
    let (rest, found) = update_where id test set js in
    ite (String-discrete j.id id) (if test j then (set j ∷ js, some (set j)) else (j ∷ js, none))
      (j ∷ rest, found)

-- UPDATE jobs SET ... WHERE ..., with the number of rows.
unfoldable pub update_all : (JobRow → Bool) → (JobRow → JobRow) → List JobRow → List JobRow × ℕ
update_all test set [] = ([], 0)
update_all test set (j ∷ js) =
    let (rest, n) = update_all test set js in
    if test j then (set j ∷ rest, suc n) else (j ∷ rest, n)

-- The jobs that the limit of simultaneous analyses counts: status IN ('queued','running') AND
-- created_at > cutoff AND (source IS NULL OR source <> 'semantic').
unfoldable pub counts_as_running : String → ℕ → JobRow → Bool
unfolding in_progress is_semantic_source
counts_as_running installation cutoff j =
    is_some_of j.installation_id installation
    && (in_progress j.status && (ltb cutoff j.created_at && not (is_semantic_source j.source)))

unfoldable pub count_running : String → ℕ → List JobRow → ℕ
count_running installation cutoff [] = 0
count_running installation cutoff (j ∷ js) =
    (if counts_as_running installation cutoff j then 1 else 0)
    + count_running installation cutoff js
