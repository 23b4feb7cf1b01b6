-- ===== src/Bodies/Persons.antt =====
-- body-selection/store.ts: the persons of a job, their poses, and their rows.
use standin_app_server.Prelude.{
  ℕ, Bool, true, not, ◌&&◌, List, [], ◌∷◌, ◌++◌, if◌then◌else◌, ltb, ◌==◌, String, Option, none,
  some, length, same, Tried, done, thrown, ◌>>=◌, ◌>>◌, throw_if,
}
use standin_app_server.Jobs.Rows.{Presentation}
use standin_app_server.Bodies.{BodyPolicy, disabled, BodyRecommendation, BodySelection}
use standin_app_server.Bodies.Shape.{mem}
use standin_app_server.Bodies.Tables.{
  BodyError, body_error, SelectionRow, BodyPerson, BodyResult, BodyJob, BodyDb,
}

abbrev pub preview_versions : List String
preview_versions = "dynamic-pose-presentation-v1" ∷ "semantic-pose-presentation-v1" ∷ []

abbrev pub preview_scopes : List String
preview_scopes = "full" ∷ "half" ∷ "bust" ∷ "shoulder_head" ∷ "head" ∷ []

abbrev pub scope_text : Option String → String
scope_text none = ""
scope_text (some t) = t

abbrev pub shown : Presentation → List String
shown p = p.library_candidates ++ p.review_candidates ++ p.generated_candidates

unfoldable pub is_preview : Presentation → Bool
is_preview p =
    mem p.version preview_versions
    && (mem (scope_text p.output_scope) preview_scopes && ltb 0 (length (shown p)))

unfoldable pub pose_ids : List (Option String) → List String
pose_ids [] = []
pose_ids (none ∷ rest) = pose_ids rest
pose_ids (some id ∷ rest) = id ∷ pose_ids rest

pub record BodyContext : Type 0 where
  pub preview_only : Bool
  pub poses : List String

abbrev pub legacy_context : BodyPerson → Bool → BodyContext
legacy_context person semantic = record {
  preview_only = semantic;
  poses = pose_ids person.candidates;
}

unfoldable pub context_of : BodyPerson → Bool → Option Presentation → BodyContext
context_of person semantic none = legacy_context person semantic
context_of person semantic (some p) =
    if is_preview p
    then record { preview_only = true; poses = shown p }
    else legacy_context person semantic

unfoldable pub person_body_context : BodyPerson → Bool → BodyContext
person_body_context person semantic = context_of person semantic person.presentation

abbrev pub recommendation_of : Option BodyRecommendation → BodyRecommendation
recommendation_of none = record {
  status = disabled;
  body = none;
  reason_codes = "body_disabled" ∷ [];
  metadata = "";
}
recommendation_of (some rec) = rec

unfoldable pub find_job : String → String → List BodyJob → Option BodyJob
find_job owner id [] = none
find_job owner id (j ∷ js) =
    if same j.id id && same j.installation_id owner then some j else find_job owner id js

unfoldable pub find_selection : String → ℕ → List SelectionRow → Option SelectionRow
find_selection job index [] = none
find_selection job index (r ∷ rs) =
    if same r.job_id job && (r.person_index == index) then some r else find_selection job index rs

unfoldable pub update_selection : String → ℕ → BodySelection → List SelectionRow → List SelectionRow
update_selection job index value [] = []
update_selection job index value (r ∷ rs) =
    let rest = update_selection job index value rs in
    if same r.job_id job && (r.person_index == index)
    then record r { value = value } ∷ rest
    else r ∷ rest

-- INSERT ... ON CONFLICT DO NOTHING
unfoldable pub insert_selection : String → ℕ → BodySelection → List SelectionRow → List SelectionRow
insert_selection job index value rows = elim (find_selection job index rows) [
  | none ↦ rows ++ record { job_id = job; person_index = index; value = value } ∷ []
  | some r ↦ rows
]

unfoldable pub find_body_person : ℕ → List BodyPerson → Option BodyPerson
find_body_person index [] = none
find_body_person index (p ∷ ps) =
    if p.person_index == index then some p else find_body_person index ps

pub record OwnedPerson : Type 0 where
  pub person : BodyPerson
  pub policy : BodyPolicy
  pub semantic : Bool

abbrev pub found : {A : Type 0} → Option A → BodyError → Tried BodyError A
found none e = thrown e
found (some a) e = done a

-- A job whose analysis ended, with its result.
unfoldable pub completed_job : BodyDb → String → String → Tried BodyError (BodyJob × BodyResult)
completed_job db owner job_id = do
  job ← found (find_job owner job_id db.jobs) (body_error "NOT_FOUND" 404)
  throw_if (not (same job.status "completed")) (body_error "NOT_READY" 409)
  result ← found job.result_json (body_error "NOT_READY" 409)
  done (job, result)

unfoldable pub owned_person : BodyDb → String → String → ℕ → Tried BodyError OwnedPerson
owned_person db owner job_id index = do
  (job, result) ← completed_job db owner job_id
  person ← found (find_body_person index result.persons) (body_error "NOT_FOUND" 404)
  policy ← found job.body_policy_json (body_error "BODY_SELECTION_UNSUPPORTED" 409)
  done (record { person = person; policy = policy; semantic = result.is_semantic })
