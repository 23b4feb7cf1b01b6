-- ===== src/Jobs/Records.antt =====
-- jobs/store.ts persistAnalysisRecords, with initializeBodySelections of body-selection/store.ts. What
-- `initialBody` chooses for a person under a policy is an argument.
pub mod Laws
pub mod Replaced
pub mod Written
pub mod Stored
pub mod Outcomes
use standin_app_server.Prelude.{
  ℕ, ◌≡◌, refl, Bool, true, false, not, ◌&&◌, ◌||◌, List, [], ◌∷◌, ◌++◌, map, arith, ite,
  if◌then◌else◌, ◌==◌, String, Option, none, some,
}
use standin_app_server.Jobs.Rows.{
  JobStatus, completed, Candidate, Person, AnalysisResult, JobRow, find_job, update_where, same,
  is_none,
}
use standin_app_server.Jobs.Tables.{
  Tables, PersonRow, CandidateRow, BodySelectionRow, Tried, done, thrown, ◌>>=◌, settle,
  transaction,
}
use standin_app_server.Jobs.Lifecycle.{delete_where, coalesce}

-- `context` is the text of the refine inputs that the server keeps.
pub record RefineContext : Type 0 where
  pub person_index : ℕ
  pub slot_origin : Option String
  pub lower_body_observed : Bool
  pub raw_scores : Option String
  pub context : String

pub record PersonSignals : Type 0 where
  pub person_index : ℕ
  pub columns : String

-- `new Map(...)`: of two entries for a person the later stands.
unfoldable pub context_of : List RefineContext → ℕ → Option RefineContext
context_of [] i = none
context_of (c ∷ cs) i = elim (context_of cs i) [
  | some d ↦ some d
  | none ↦ if c.person_index == i then some c else none
]

unfoldable pub signals_of : List PersonSignals → ℕ → Option PersonSignals
signals_of [] i = none
signals_of (s ∷ ss) i = elim (signals_of ss i) [
  | some t ↦ some t
  | none ↦ if s.person_index == i then some s else none
]

abbrev pub part : {A B : Type 0} → (A → B) → Option A → Option B
part f none = none
part f (some a) = some (f a)

abbrev pub part_of : {A B : Type 0} → (A → Option B) → Option A → Option B
part_of f none = none
part_of f (some a) = f a

abbrev pub observed : Option RefineContext → Bool
observed none = false
observed (some c) = c.lower_body_observed

-- Signals and raw scores are kept under a valid consent only.
unfoldable pub person_row :
    String → Bool → List RefineContext → List PersonSignals → Person → PersonRow
person_row id quality_allowed contexts signals person =
    let ctx = context_of contexts person.person_index in
    record {
      job_id = id;
      person_index = person.person_index;
      columns = person.columns;
      slot_origin = part_of (λ c. c.slot_origin) ctx;
      lower_body_observed = observed ctx;
      refine_context_json = part (λ c. c.context) ctx;
      raw_scores_json = if quality_allowed then part_of (λ c. c.raw_scores) ctx else none;
      signal =
          if quality_allowed
          then part (λ s. s.columns) (signals_of signals person.person_index)
          else none;
    }

unfoldable pub candidate_row : String → ℕ → Candidate → CandidateRow
candidate_row id person_index c = record {
  job_id = id;
  person_index = person_index;
  candidate_id = c.id;
  pose_id = c.pose_id;
  rank = c.rank;
  view = c.view;
  columns = c.columns;
}

pub data Refusal : Type 0 where
  unique_violation : Refusal

unfoldable pub any_of {ℓ} : {A : Type ℓ} → (A → Bool) → List A → Bool
any_of test [] = false
any_of test (a ∷ rows) = test a || any_of test rows

-- INSERT, refused when the primary key is taken.
insert_row : {A : Type 0} → (A → A → Bool) → A → List A → Tried Refusal (List A)
insert_row same_key a rows =
    if any_of (same_key a) rows then thrown unique_violation else done (rows ++ (a ∷ []))

same_person : PersonRow → PersonRow → Bool
same_person a b = same a.job_id b.job_id && (a.person_index == b.person_index)

same_candidate : CandidateRow → CandidateRow → Bool
same_candidate a b =
    same a.job_id b.job_id
    && ((a.person_index == b.person_index) && same a.candidate_id b.candidate_id)

insert_candidates :
    String → ℕ → List Candidate → List CandidateRow → Tried Refusal (List CandidateRow)
insert_candidates id person_index [] rows = done rows
insert_candidates id person_index (c ∷ cs) rows =
    insert_row same_candidate (candidate_row id person_index c) rows
    >>= insert_candidates id person_index cs

unfoldable pub insert_people :
    String
    → Bool
    → List RefineContext
    → List PersonSignals
    → List Person
    → Tables
    → Tried Refusal Tables
unfolding insert_candidates insert_row same_person same_candidate
insert_people id quality_allowed contexts signals [] db = done db
insert_people id quality_allowed contexts signals (p ∷ ps) db = do
  people ← insert_row same_person (person_row id quality_allowed contexts signals p) db.people
  candidates ← insert_candidates id p.person_index p.candidates db.candidates
  insert_people id quality_allowed contexts signals ps
      (record db { people = people; candidates = candidates })

-- ON CONFLICT (job_id, person_index) DO NOTHING
unfoldable pub add_body : BodySelectionRow → List BodySelectionRow → List BodySelectionRow
add_body b [] = b ∷ []
add_body b (r ∷ rows) =
    let rest = add_body b rows in
    if same r.job_id b.job_id && (r.person_index == b.person_index) then r ∷ rows else r ∷ rest

add_bodies :
    (String → Person → Bool → String)
    → String
    → String
    → Bool
    → List Person
    → List BodySelectionRow
    → List BodySelectionRow
add_bodies initial_body id policy is_semantic [] rows = rows
add_bodies initial_body id policy is_semantic (p ∷ ps) rows =
    add_bodies initial_body id policy is_semantic ps (
      add_body
        (record {
          job_id = id;
          person_index = p.person_index;
          value = initial_body policy p is_semantic;
        })
        rows)

policy_of : Option JobRow → Option String
policy_of none = none
policy_of (some j) = j.body_policy_json

unfoldable pub initialize_body_selections :
    (String → Person → Bool → String) → String → AnalysisResult → Tables → Tables
unfolding add_bodies policy_of
initialize_body_selections initial_body id result db = elim (policy_of (find_job id db.jobs)) [
  | none ↦ db
  | some policy ↦ record db {
    body_selections =
        add_bodies initial_body id policy result.is_semantic result.persons db.body_selections;
  }
]

abbrev pub complete_set : AnalysisResult → ℕ → JobRow → JobRow
complete_set result now j = record j {
  status = completed;
  result_json = some result;
  updated_at = now;
  completed_at = some now;
}

-- COALESCE keeps the size that the request declared.
abbrev pub kept_size : Option ℕ → Option ℕ → Option ℕ
kept_size none b = b
kept_size (some a) b = some a

abbrev pub summary_set : AnalysisResult → Option String → JobRow → JobRow
summary_set result summary j = record j {
  inference_metadata_json = some result.inference_metadata;
  input_width = kept_size j.input_width (part (λ s. s.0) result.image_size);
  input_height = kept_size j.input_height (part (λ s. s.1) result.image_size);
  cut_summary_json = summary;
}

unfoldable pub finish_records : String → AnalysisResult → Option String → Bool → ℕ → Tables → Tables
finish_records id result summary complete now db =
    let jobs =
      if complete
      then (update_where id (λ j. true) (complete_set result now) db.jobs).0
      else db.jobs in
    record db { jobs = (update_where id (λ j. true) (summary_set result summary) jobs).0 }

pub record Records : Type 0 where
  pub result : AnalysisResult
  pub contexts : List RefineContext
  pub signals : List PersonSignals
  pub cut_summary : Option String
  pub complete : Bool

-- `Boolean(quality_consent_id)`
abbrev pub is_given : Option String → Bool
is_given none = false
is_given (some s) = not (same s "")

-- The statements on a job that is there, whose consent is known.
unfoldable pub write_records :
    (String → Person → Bool → String)
    → String
    → Records
    → Bool
    → ℕ
    → Tables
    → Tried Refusal (Tables × Unit {0})
write_records initial_body id r quality_allowed now db = do
  db₁ ← insert_people id quality_allowed r.contexts r.signals r.result.persons (record db {
    candidates = delete_where (λ c. same c.job_id id) db.candidates;
    people = delete_where (λ p. same p.job_id id) db.people;
  })
  done (
    finish_records id r.result (if quality_allowed then r.cut_summary else none) r.complete now
        (initialize_body_selections initial_body id r.result db₁),
    tt,
  )

unfoldable pub persist_analysis_records :
    (String → Person → Bool → String)
    → String
    → Records
    → ℕ
    → Tables
    → Tables × Tried Refusal (Unit {0})
persist_analysis_records initial_body id r now db = transaction db λ db.
    elim (find_job id db.jobs) [
      | none ↦ done (db, tt)
      | some j ↦ write_records initial_body id r (is_given j.quality_consent_id) now db
    ]
