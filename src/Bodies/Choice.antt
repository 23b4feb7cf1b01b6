-- ===== src/Bodies/Choice.antt =====
-- body-selection/model.ts: the resolution of a choice.
pub mod Ready
use standin_app_server.Prelude.{
  ℕ, Bool, true, false, not, ◌&&◌, ◌||◌, List, [], ◌∷◌, if◌then◌else◌, String, Option, none, some,
  Tried, done, thrown,
}
use standin_app_server.Bodies.{
  ShapeControl, ShapeSpec, Controls, BodyShape, ShapeSource, BodyRef, BodyAsset, BodyCatalog,
  BodyCard, LastUsedBody, BodyMode, auto_mode, last_used_mode, BodyPreferences, StoredPreferences,
  LastBody, BodyPolicy, RecommendationStatus, available, unavailable, disabled, not_applicable,
  BodyRecommendation, BodyIntent, inherit, manual_intent, auto, ResolvedSource, manual, last_used,
  auto_recommendation, catalog_default_fallback, fixed_default, user_default_fallback,
  ResolutionStatus, ready, needs_selection, body_unavailable, body_not_applicable, BodySelection,
}
use standin_app_server.Bodies.Shape.{
  ShapeInputError, shape_unsupported, ShapeHash, body_shape, as_input,
}
use standin_app_server.Bodies.Children.{automatic_recommendation}
use standin_app_server.Bodies.Model.{
  same_body, body_eligible, first_use_body, normalize_preferences, last_used_body,
}

-- `catalog.assets.find((a) => sameBody(a, ref))`
unfoldable pub find_same : BodyRef → List BodyAsset → Option BodyAsset
find_same ref [] = none
find_same ref (a ∷ rest) = if same_body a.ref ref then some a else find_same ref rest

-- What the resolution is asked for.
pub record Request : Type 0 where
  pub person_index : ℕ
  pub poses : List String
  pub intent : BodyIntent
  pub manual : Option BodyRef
  pub revision : ℕ
  pub shape : Option BodyShape
  pub preview_only : Bool

abbrev pub is_manual : BodyIntent → Bool
is_manual inherit = false
is_manual manual_intent = true
is_manual auto = false

abbrev manual_id : Option BodyRef → Option String
manual_id none = none
manual_id (some r) = some r.character_id

unfoldable pub initial_selection : Request → BodyRecommendation → BodySelection
initial_selection q rec = record {
  person_index = q.person_index;
  intent = q.intent;
  manual_character_id = if is_manual q.intent then manual_id q.manual else none;
  shape = if is_manual q.intent then q.shape else none;
  shape_source = none;
  recommendation = rec;
  resolved_body = none;
  resolved_source = none;
  resolution_status = needs_selection;
  selection_revision = q.revision;
  preview_only = q.preview_only;
}

unfoldable pub is_available : RecommendationStatus → Bool
is_available available = true
is_available unavailable = false
is_available disabled = false
is_available not_applicable = false

abbrev stored_or : Option (Option LastBody) → Option LastBody → Option LastBody
stored_or none current = current
stored_or (some last) current = last

abbrev ref_or : Option (Option BodyRef) → Option BodyRef → Option BodyRef
ref_or none current = current
ref_or (some ref) current = ref

module _ (catalog : BodyCatalog) where
  unfoldable pub use_body :
      BodySelection → Request → Option BodyRef → ResolvedSource → BodySelection
  use_body state q ref source = record state {
    resolved_body = ref;
    resolved_source = some source;
    resolution_status =
        if body_eligible ref catalog q.poses q.preview_only then ready else body_unavailable;
  }

  unfoldable pub use_male_base : BodySelection → Request → BodyPolicy → BodySelection
  use_male_base state q policy =
      use_body state q (ref_or policy.first_use_default (first_use_body catalog))
        catalog_default_fallback

  unfoldable pub use_recommended :
      BodySelection → Request → BodyPolicy → BodyRecommendation → BodySelection
  use_recommended state q policy rec =
      if is_available rec.status && body_eligible rec.body catalog q.poses q.preview_only
      then use_body state q rec.body auto_recommendation
      else use_male_base state q policy

module _ (hash : ShapeHash) (enabled : Bool) (catalog : BodyCatalog) where
  -- The controls of the last choice for its body of this catalog.
  unfoldable pub remembered_shape : LastBody → Tried ShapeInputError (Option BodyShape)
  remembered_shape last = elim last.shape [
    | none ↦ done none
    | some shape ↦ elim (find_same last.body catalog.assets) [
      | none ↦ thrown shape_unsupported
      | some asset ↦ body_shape hash enabled asset (some (as_input shape.controls))
    ]
  ]

  unfoldable pub use_last : BodySelection → Request → BodyPolicy → Option LastBody → BodySelection
  use_last state q policy none = use_male_base catalog state q policy
  use_last state q policy (some last) =
      if body_eligible (some last.body) catalog q.poses q.preview_only
      then elim (remembered_shape last) [
        | done shape ↦ record (use_body catalog state q (some last.body) last_used) {
          shape = shape;
        }
        | thrown e ↦ use_male_base catalog state q policy
      ]
      else use_male_base catalog state q policy

  unfoldable pub use_mode :
      BodySelection → Request → BodyPolicy → BodyRecommendation → BodyMode → BodySelection
  use_mode state q policy rec auto_mode = use_recommended catalog state q policy rec
  use_mode state q policy rec last_used_mode =
      let preferences = normalize_preferences policy.preferences in
      use_last state q policy
        (stored_or policy.last_used (last_used_body hash enabled preferences.last_used catalog))

  unfoldable pub use_intent :
      BodySelection → Request → BodyPolicy → BodyRecommendation → BodyIntent → BodySelection
  use_intent state q policy rec manual_intent = use_body catalog state q q.manual manual
  use_intent state q policy rec inherit =
      use_mode state q policy rec (normalize_preferences policy.preferences).mode
  use_intent state q policy rec auto = use_recommended catalog state q policy rec

  unfoldable pub use_poses :
      BodySelection → Request → BodyPolicy → BodyRecommendation → List String → BodySelection
  use_poses state q policy rec [] = record state { resolution_status = body_not_applicable }
  use_poses state q policy rec (p ∷ ps) = use_intent state q policy rec q.intent

  unfoldable pub resolve_body : Request → BodyPolicy → BodyRecommendation → BodySelection
  resolve_body q policy recommendation =
      let rec = automatic_recommendation recommendation catalog in
      use_poses (initial_selection q rec) q policy rec q.poses
