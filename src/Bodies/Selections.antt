-- ===== src/Bodies/Selections.antt =====
-- body-selection/store.ts: the bodies of the persons of a job.
pub mod Writes
pub mod Shown
pub mod Decided
pub mod Checked
pub mod Options
use standin_app_server.Prelude.{
  ℕ, suc, ◌+◌, Bool, true, false, not, ◌&&◌, ◌||◌, List, [], ◌∷◌, ◌++◌, if◌then◌else◌, ltb, leb,
  ◌==◌, String, Option, none, some, length, same, lookup, Tried, done, thrown, ◌>>=◌, ◌>>◌,
  throw_if,
}
use standin_app_server.Jobs.Rows.{Presentation}
use standin_app_server.Bodies.{
  ShapeControl, ShapeSpec, Controls, BodyShape, ShapeSource, BodyRef, BodyAsset, BodyCatalog,
  BodyCard, LastUsedBody, BodyMode, auto_mode, last_used_mode, BodyPreferences, StoredPreferences,
  LastBody, BodyPolicy, RecommendationStatus, available, unavailable, disabled, not_applicable,
  BodyRecommendation, BodyIntent, inherit, manual_intent, auto, ResolvedSource, manual, last_used,
  auto_recommendation, catalog_default_fallback, fixed_default, user_default_fallback,
  ResolutionStatus, ready, needs_selection, body_unavailable, body_not_applicable, BodySelection,
}
use standin_app_server.Bodies.Shape.{
  RawControls, ShapeInputError, ShapeHash, mem, body_shape, shape_spec, find_character,
}
use standin_app_server.Bodies.Children.{is_child_body, automatic_recommendation}
use standin_app_server.Bodies.Model.{body_eligible, snapshot}
use standin_app_server.Bodies.Choice.{Request, is_manual, is_available, resolve_body}
use standin_app_server.Bodies.Tables.{
  BodyError, body_error, shape_error, Mutation, SelectionChange, Payload, selection_payload,
  BodyMutation, SelectionRow, BodyPerson, BodyResult, BodyJob, BodyDb, Transaction, expect, replay,
  remember,
}
use standin_app_server.Bodies.Persons.{
  BodyContext, OwnedPerson, completed_job, context_of, find_body_person, find_job, find_selection,
  found, insert_selection, is_preview, legacy_context, owned_person, person_body_context, pose_ids,
  preview_scopes, preview_versions, recommendation_of, scope_text, shown, update_selection,
}
use standin_app_server.Bodies.Preferences.{Deps, row_or, read_preferences, store_preferences}

abbrev pub is_legacy_source : Option ResolvedSource → Bool
is_legacy_source none = false
is_legacy_source (some fixed_default) = true
is_legacy_source (some user_default_fallback) = true
is_legacy_source (some catalog_default_fallback) = false
is_legacy_source (some manual) = false
is_legacy_source (some last_used) = false
is_legacy_source (some auto_recommendation) = false

abbrev pub is_default_source : Option ResolvedSource → Bool
is_default_source (some catalog_default_fallback) = true
is_default_source none = false
is_default_source (some fixed_default) = false
is_default_source (some user_default_fallback) = false
is_default_source (some manual) = false
is_default_source (some last_used) = false
is_default_source (some auto_recommendation) = false

abbrev pub is_recommended_source : Option ResolvedSource → Bool
is_recommended_source (some auto_recommendation) = true
is_recommended_source none = false
is_recommended_source (some fixed_default) = false
is_recommended_source (some user_default_fallback) = false
is_recommended_source (some manual) = false
is_recommended_source (some last_used) = false
is_recommended_source (some catalog_default_fallback) = false

abbrev pub is_some : {A : Type 0} → Option A → Bool
is_some none = false
is_some (some a) = true

-- `a?.characterId === value.resolvedBody?.characterId` for an asset of the catalog.
abbrev pub asset_of : Option BodyRef → BodyCatalog → Option BodyAsset
asset_of none catalog = none
asset_of (some ref) catalog = find_character ref.character_id catalog.assets

abbrev pub source_of : Option BodyAsset → Option ShapeSource
source_of none = none
source_of (some a) = a.shape_source

abbrev pub asset_ref : Option BodyAsset → Option BodyRef
asset_ref none = none
asset_ref (some a) = some a.ref

abbrev pub is_ready : ResolutionStatus → Bool
is_ready ready = true
is_ready needs_selection = false
is_ready body_unavailable = false
is_ready body_not_applicable = false

abbrev pub is_auto : BodyIntent → Bool
is_auto auto = true
is_auto inherit = false
is_auto manual_intent = false

abbrev pub refusal : BodyIntent → BodyError
refusal intent =
    body_error (if is_auto intent then "BODY_RECOMMENDATION_UNAVAILABLE" else "BODY_UNAVAILABLE")
      409

module _ (hash : ShapeHash) (deps : Deps) where
  abbrev pub resolve : Request → BodyPolicy → BodyRecommendation → BodySelection
  resolve = resolve_body hash deps.shapes_enabled deps.catalog

  unfoldable pub initial_body : BodyPerson → BodyPolicy → Bool → BodySelection
  initial_body person policy semantic =
      let context = person_body_context person semantic in
      resolve
        (record {
          person_index = person.person_index;
          poses = context.poses;
          intent = inherit;
          manual = none;
          revision = 0;
          shape = none;
          preview_only = context.preview_only;
        })
        policy (recommendation_of person.body_recommendation)

  unfoldable pub initialize_persons :
      String → BodyPolicy → Bool → List BodyPerson → List SelectionRow → List SelectionRow
  initialize_persons job policy semantic [] rows = rows
  initialize_persons job policy semantic (p ∷ ps) rows =
      initialize_persons job policy semantic ps
        (insert_selection job p.person_index (initial_body p policy semantic) rows)

  -- Saved choices that nobody made by hand are resolved again with the policy of the job.
  unfoldable pub is_unsettled : BodySelection → Bool
  is_unsettled value =
      not (is_manual value.intent)
      && (is_legacy_source value.resolved_source
          || (is_default_source value.resolved_source
              || (not (is_some value.resolved_body)
                  || (is_recommended_source value.resolved_source
                      && is_child_body value.resolved_body deps.catalog))))

  unfoldable pub settled : BodySelection → BodyContext → Option BodyPolicy → BodySelection
  settled value context none = value
  settled value context (some policy) =
      if is_unsettled value
      then resolve
          (record {
            person_index = value.person_index;
            poses = context.poses;
            intent = value.intent;
            manual = none;
            revision = value.selection_revision;
            shape = none;
            preview_only = context.preview_only;
          })
          policy value.recommendation
      else value

  unfoldable pub current_recommendation : BodyRecommendation → BodyContext → BodyRecommendation
  current_recommendation rec context =
      if is_available rec.status
        && not (body_eligible rec.body deps.catalog context.poses context.preview_only)
      then record rec { status = unavailable; reason_codes = "body_asset_unavailable" ∷ [] }
      else rec

  unfoldable pub shape_lost : BodySelection → Bool
  shape_lost value =
      is_some value.shape
      && not (is_some (shape_spec deps.shapes_enabled (asset_of value.resolved_body deps.catalog)))

  unfoldable pub body_lost : BodySelection → BodyContext → Bool
  body_lost value context =
      is_some value.resolved_body
      && not (body_eligible value.resolved_body deps.catalog context.poses context.preview_only)

  unfoldable pub checked : BodySelection → BodyContext → BodySelection
  checked value context = record value {
    preview_only = context.preview_only || value.preview_only;
    shape_source =
        if is_some value.shape
        then source_of (asset_of value.resolved_body deps.catalog)
        else value.shape_source;
    recommendation =
        automatic_recommendation (current_recommendation value.recommendation context) deps.catalog;
    resolution_status =
        if body_lost value context || shape_lost value
        then body_unavailable
        else value.resolution_status;
  }

  unfoldable pub revalidate : BodySelection → BodyPerson → Bool → Option BodyPolicy → BodySelection
  revalidate value person semantic policy =
      let context = person_body_context person semantic in
      checked (settled value context policy) context

  unfoldable pub read_selection : BodyDb → String → String → ℕ → Tried BodyError BodySelection
  read_selection db owner job index = do
    owned ← owned_person db owner job index
    row ←
        found (find_selection job index db.body_selections)
          (body_error "BODY_SELECTION_UNSUPPORTED" 409)
    done (revalidate row.value owned.person owned.semantic (some owned.policy))

  abbrev pub find_manual : Option String → Option BodyAsset
  find_manual none = none
  find_manual (some id) = find_character id deps.catalog.assets

  abbrev pub manual_eligible : Option BodyAsset → BodyContext → Bool
  manual_eligible none context = true
  manual_eligible (some a) context =
      body_eligible (some a.ref) deps.catalog context.poses context.preview_only

  unfoldable pub chosen_shape :
      SelectionChange → Option BodyAsset → Tried BodyError (Option BodyShape)
  chosen_shape change asset = elim change.shape [
    | none ↦ done none
    | some controls ↦ elim asset [
      | none ↦ thrown (body_error "INVALID_INPUT" 400)
      | some a ↦ do
        throw_if (not (is_manual change.intent)) (body_error "INVALID_INPUT" 400)
        shape_error (body_shape hash deps.shapes_enabled a (some controls))
    ]
  ]

  -- The choice that a change makes of the current one.
  unfoldable pub decide :
      SelectionChange → ℕ → OwnedPerson → BodySelection → Tried BodyError BodySelection
  decide change index owned current = do
    expect current.selection_revision change.mutation.expected_revision "BODY_SELECTION_CONFLICT"
    let context = person_body_context owned.person owned.semantic
    throw_if (length context.poses == 0) (body_error "BODY_NOT_APPLICABLE" 409)
    let asset = find_manual change.character_id
    throw_if (is_manual change.intent && not (is_some asset)) (body_error "INVALID_CHARACTER" 400)
    throw_if (not (manual_eligible asset context)) (body_error "BODY_POSE_UNSUPPORTED" 409)
    shape ← chosen_shape change asset
    let value =
        resolve
          (record {
            person_index = index;
            poses = context.poses;
            intent = change.intent;
            manual = asset_ref asset;
            revision = suc current.selection_revision;
            shape = shape;
            preview_only = context.preview_only;
          })
          owned.policy current.recommendation
    throw_if (not (is_ready value.resolution_status)) (refusal change.intent)
    body ← found value.resolved_body (refusal change.intent)
    throw_if (not (deps.check body.character_id)) (body_error "BODY_UNAVAILABLE" 409)
    done value
