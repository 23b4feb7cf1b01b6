-- ===== src/Bodies/Selections/Writes.antt =====
-- body-selection/store.ts: the requests on the bodies of a job.
pub mod Repeats
use standin_app_server.Prelude.{
  ℕ, suc, ◌+◌, Bool, true, false, not, ◌&&◌, ◌||◌, List, [], ◌∷◌, ◌++◌, if◌then◌else◌, ltb, leb,
  ◌==◌, String, Option, none, some, length, same, lookup, Tried, done, thrown, ◌>>=◌, ◌>>◌,
  throw_if,
}
use standin_app_server.Bodies.Selections.Shown.{BodyOption, body_options}
use standin_app_server.Bodies.{
  ShapeControl, ShapeSpec, Controls, BodyShape, ShapeSource, BodyRef, BodyAsset, BodyCatalog,
  BodyCard, LastUsedBody, BodyMode, auto_mode, last_used_mode, BodyPreferences, StoredPreferences,
  LastBody, BodyPolicy, RecommendationStatus, available, unavailable, disabled, not_applicable,
  BodyRecommendation, BodyIntent, inherit, manual_intent, auto, ResolvedSource, manual, last_used,
  auto_recommendation, catalog_default_fallback, fixed_default, user_default_fallback,
  ResolutionStatus, ready, needs_selection, body_unavailable, body_not_applicable, BodySelection,
}
use standin_app_server.Bodies.Shape.{ShapeHash, shape_spec}
use standin_app_server.Bodies.Model.{body_eligible, snapshot}
use standin_app_server.Bodies.Tables.{
  BodyError, body_error, Mutation, SelectionChange, Payload, selection_payload, BodyMutation,
  SelectionRow, BodyPerson, BodyResult, BodyJob, BodyDb, Transaction, replay, remember,
}
use standin_app_server.Bodies.Preferences.{Deps, row_or, store_preferences, read_preferences}
use standin_app_server.Bodies.Selections.{
  initialize_persons, revalidate, read_selection, decide, is_some,
}
use standin_app_server.Bodies.Persons.{
  BodyContext, person_body_context, find_job, find_selection, update_selection, OwnedPerson, found,
  completed_job, owned_person,
}

abbrev pub payload_of : SelectionChange → Payload
payload_of change =
    selection_payload change.intent change.character_id change.mutation.expected_revision
      change.shape

module _ (hash : ShapeHash) (deps : Deps) where
  -- The last body that was picked by hand; the revision of the preferences stays.
  unfoldable pub remember_body : String → BodySelection → BodyRef → BodyDb → BodyDb
  remember_body owner value body db =
      store_preferences owner
        (record (read_preferences db owner) {
          last_used = some (record {
            character_id = body.character_id;
            controls = elim value.shape [ none ↦ none | some shape ↦ some shape.controls ];
            used_at = deps.now;
          });
        })
        db

  unfoldable pub last_used_of :
      String → BodySelection → Option BodyRef → Option ResolvedSource → BodyDb → BodyDb
  last_used_of owner value (some body) (some manual) db = remember_body owner value body db
  last_used_of owner value (some body) (some last_used) db = db
  last_used_of owner value (some body) (some auto_recommendation) db = db
  last_used_of owner value (some body) (some catalog_default_fallback) db = db
  last_used_of owner value (some body) (some fixed_default) db = db
  last_used_of owner value (some body) (some user_default_fallback) db = db
  last_used_of owner value (some body) none db = db
  last_used_of owner value none source db = db

  unfoldable pub record_last_used : String → BodySelection → BodyDb → BodyDb
  record_last_used owner value db =
      last_used_of owner value value.resolved_body value.resolved_source db

  unfoldable pub save_selection :
      String → String → ℕ → SelectionChange → BodySelection → BodyDb → BodyDb
  save_selection owner job index change value db = record_last_used owner value (record db {
    body_selections = update_selection job index value db.body_selections;
    selection_mutations =
        remember deps.later_id
          (record {
            owner = owner;
            resource = (job, index);
            mutation_id = change.mutation.mutation_id;
            job = some job;
            payload_hash = deps.payload_hash (payload_of change);
            response = value;
            created_at = deps.now;
          })
          db.selection_mutations;
  })

  unfoldable pub choose_once :
      BodyDb
      → String
      → String
      → ℕ
      → SelectionChange
      → OwnedPerson
      → Option BodySelection
      → Transaction BodySelection
  choose_once db owner job index change owned (some value) =
      done (db, revalidate hash deps value owned.person owned.semantic (some owned.policy))
  choose_once db owner job index change owned none = do
    row ←
        found (find_selection job index db.body_selections)
          (body_error "BODY_SELECTION_UNSUPPORTED" 409)
    value ← decide hash deps change index owned row.value
    done (save_selection owner job index change value db, value)

  unfoldable pub write_selection :
      BodyDb → String → String → ℕ → SelectionChange → Transaction BodySelection
  write_selection db owner job index change = do
    owned ← owned_person db owner job index
    previous ←
        replay owner (job, index) change.mutation (deps.payload_hash (payload_of change))
          db.selection_mutations
    choose_once db owner job index change owned previous

  -- UPDATE jobs SET body_policy_json ... WHERE body_policy_json IS NULL
  unfoldable pub capture : String → BodyPolicy → List BodyJob → List BodyJob
  capture id policy [] = []
  capture id policy (j ∷ js) =
      let rest = capture id policy js in
      if same j.id id && not (is_some j.body_policy_json)
      then record j { body_policy_json = some policy } ∷ rest
      else j ∷ rest

  unfoldable pub capture_body_policy : String → String → BodyDb → BodyDb
  capture_body_policy job owner db = record db {
    jobs =
        capture job
          (snapshot hash deps.shapes_enabled (row_or (lookup owner db.body_preferences))
            deps.catalog)
          db.jobs;
  }

  unfoldable pub find_any_job : String → List BodyJob → Option BodyJob
  find_any_job id [] = none
  find_any_job id (j ∷ js) = if same j.id id then some j else find_any_job id js

  abbrev pub policy_of : Option BodyJob → Option BodyPolicy
  policy_of none = none
  policy_of (some j) = j.body_policy_json

  unfoldable pub initialize_with : String → BodyResult → Option BodyPolicy → BodyDb → BodyDb
  initialize_with job result none db = db
  initialize_with job result (some policy) db = record db {
    body_selections =
        initialize_persons hash deps job policy result.is_semantic result.persons
          db.body_selections;
  }

  unfoldable pub initialize_body_selections : String → BodyResult → BodyDb → BodyDb
  initialize_body_selections job result db =
      initialize_with job result (policy_of (find_any_job job db.jobs)) db

  unfoldable pub ensure_semantic_body_selection : String → String → BodyDb → Tried BodyError BodyDb
  ensure_semantic_body_selection owner job_id db = do
    (job, result) ← completed_job db owner job_id
    done (
        if result.is_semantic
        then initialize_body_selections job_id result
            (if is_some job.body_policy_json then db else capture_body_policy job_id owner db)
        else db)

  -- The requests of the routes, each in one transaction.
  unfoldable pub selection : BodyDb → String → String → ℕ → Transaction BodySelection
  selection db owner job index = do
    ready_db ← ensure_semantic_body_selection owner job db
    value ← read_selection hash deps ready_db owner job index
    done (ready_db, value)

  unfoldable pub put_selection :
      BodyDb → String → String → ℕ → SelectionChange → Transaction BodySelection
  put_selection db owner job index change = do
    ready_db ← ensure_semantic_body_selection owner job db
    write_selection ready_db owner job index change

  unfoldable pub options :
      BodyDb → String → String → ℕ → Transaction (String × List (BodyOption hash deps))
  options db owner job index = do
    ready_db ← ensure_semantic_body_selection owner job db
    answer ← body_options hash deps ready_db owner job index
    done (ready_db, answer)
