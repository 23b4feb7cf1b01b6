-- ===== src/Bodies/Selections/Shown.antt =====
-- body-selection/store.ts: what a client is shown of the bodies of a job.
use standin_app_server.Prelude.{
  ℕ, Bool, not, List, [], ◌∷◌, if◌then◌else◌, ◌==◌, String, Option, none, some, length, Tried, done,
  ◌>>=◌,
}
use standin_app_server.Bodies.{ShapeSpec, BodyAsset, BodyPolicy, BodySelection}
use standin_app_server.Bodies.Shape.{ShapeHash, shape_spec}
use standin_app_server.Bodies.Model.{body_eligible}
use standin_app_server.Bodies.Tables.{BodyError, BodyPerson, BodyResult, BodyJob, BodyDb}
use standin_app_server.Bodies.Preferences.{Deps}
use standin_app_server.Bodies.Selections.{revalidate}
use standin_app_server.Bodies.Persons.{
  BodyContext, person_body_context, find_job, find_selection, owned_person,
}

module _ (hash : ShapeHash) (deps : Deps) where
  -- A body of the catalog as the client is offered it; its texts are those of the asset.
  pub record BodyOption : Type 0 where
    pub asset : BodyAsset
    pub shape : Option ShapeSpec
    pub selectable : Bool
    pub reason_codes : List String

  unfoldable pub reasons : BodyContext → BodyAsset → List String
  reasons context a =
      if length context.poses == 0
      then "BODY_NOT_APPLICABLE" ∷ []
      else if not (body_eligible (some a.ref) deps.catalog context.poses context.preview_only)
      then "BODY_POSE_UNSUPPORTED" ∷ []
      else if not (deps.check a.ref.character_id)
      then "BODY_UNAVAILABLE" ∷ []
      else []

  unfoldable pub option_of : BodyContext → BodyAsset → BodyOption
  option_of context a =
      let codes = reasons context a in
      record {
        asset = a;
        shape = shape_spec deps.shapes_enabled (some a);
        selectable = length codes == 0;
        reason_codes = codes;
      }

  unfoldable pub options_of : BodyContext → List BodyAsset → List BodyOption
  options_of context [] = []
  options_of context (a ∷ rest) = option_of context a ∷ options_of context rest

  unfoldable pub body_options :
      BodyDb → String → String → ℕ → Tried BodyError (String × List BodyOption)
  body_options db owner job index = do
    owned ← owned_person db owner job index
    done (
      deps.catalog.version,
      options_of (person_body_context owned.person owned.semantic) deps.catalog.assets,
    )

  unfoldable pub unattached : List BodyPerson → List (BodyPerson × Option BodySelection)
  unattached [] = []
  unattached (p ∷ ps) = (p, none) ∷ unattached ps

  -- The bodies that an answer with the persons of a job shows.
  unfoldable pub attach_persons :
      BodyDb
      → String
      → Bool
      → Option BodyPolicy
      → List BodyPerson
      → List (BodyPerson × Option BodySelection)
  attach_persons db job semantic policy [] = []
  attach_persons db job semantic policy (p ∷ ps) =
      let rest = attach_persons db job semantic policy ps in
      elim (find_selection job p.person_index db.body_selections) [
        | none ↦ (p, none) ∷ rest
        | some row ↦ (p, some (revalidate hash deps row.value p semantic policy)) ∷ rest
      ]

  unfoldable pub attach_owned :
      BodyDb → String → BodyResult → Option BodyJob → List (BodyPerson × Option BodySelection)
  attach_owned db job result none = unattached result.persons
  attach_owned db job result (some j) =
      attach_persons db job result.is_semantic j.body_policy_json result.persons

  unfoldable pub attach_body_selections :
      Bool → BodyDb → String → String → BodyResult → List (BodyPerson × Option BodySelection)
  attach_body_selections enabled db owner job result =
      if enabled
      then attach_owned db job result (find_job owner job db.jobs)
      else unattached result.persons
