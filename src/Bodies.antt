-- ===== src/Bodies.antt =====
-- body-selection: the bodies that characters are shown with. Numbers of controls are counted in units
-- of 10^-12 and computed exactly; the rounding of binary fractions is left out.
pub mod Shape
pub mod Children
pub mod Model
pub mod Choice
pub mod Tables
pub mod Preferences
pub mod Persons
pub mod Selections
mod Reached
mod Samples
mod Tests
use standin_app_server.Prelude.{ℕ, Bool, List, String, Option, Text, ℤ}

-- A control of a body; the label is for display.
pub record ShapeControl : Type 0 where
  pub key : String
  pub lowest : ℤ
  pub highest : ℤ
  pub step : ℕ
  pub default : ℤ
  pub label : Option String

pub record ShapeSpec : Type 0 where
  pub controls : List ShapeControl
  pub basic : Option ℕ

abbrev pub Controls : Type 0
Controls = List (String × ℤ)

pub record BodyShape : Type 0 where
  pub controls : Controls
  pub shape_sha256 : String

pub record ShapeSource : Type 0 where
  pub rules : String
  pub blend_sha256 : String
  pub controller_sha256 : String

pub record BodyRef : Type 0 where
  pub body_id : String
  pub body_version : String
  pub asset_sha256 : String
  pub rig_version : String
  pub measurement_version : String
  pub character_id : String

-- `metadata` is the text of the previews, which are only passed on.
pub record BodyAsset : Type 0 where
  pub ref : BodyRef
  pub display_name : Option String
  pub supported_pose_ids : List String
  pub shape : Option ShapeSpec
  pub shape_source : Option ShapeSource
  pub metadata : String

pub record BodyCatalog : Type 0 where
  pub version : String
  pub default_character_id : Option String
  pub assets : List BodyAsset

-- A card of the user's own; the times are milliseconds.
pub record BodyCard : Type 0 where
  pub card_id : String
  pub name : Text
  pub character_id : String
  pub controls : Controls
  pub created_at : ℕ
  pub updated_at : ℕ

pub record LastUsedBody : Type 0 where
  pub character_id : String
  pub controls : Option Controls
  pub used_at : ℕ

pub data BodyMode : Type 0 where
  auto_mode last_used_mode : BodyMode

pub record BodyPreferences : Type 0 where
  pub mode : BodyMode
  pub cards : List BodyCard
  pub last_used : Option LastUsedBody
  pub revision : ℕ

-- Preferences as a row holds them, with the fields of older rows.
pub record StoredPreferences : Type 0 where
  pub mode : String
  pub cards : Option (List BodyCard)
  pub last_used : Option LastUsedBody
  pub shape_default : Option (String × Controls)
  pub revision : ℕ

pub record LastBody : Type 0 where
  pub body : BodyRef
  pub shape : Option BodyShape

-- The outer `none` of the last two is a field that is missing, as in older snapshots.
pub record BodyPolicy : Type 0 where
  pub preferences : StoredPreferences
  pub last_used : Option (Option LastBody)
  pub first_use_default : Option (Option BodyRef)

pub data RecommendationStatus : Type 0 where
  available unavailable disabled not_applicable : RecommendationStatus

-- `metadata` is the text of the hashes and the source, which are only passed on.
pub record BodyRecommendation : Type 0 where
  pub status : RecommendationStatus
  pub body : Option BodyRef
  pub reason_codes : List String
  pub metadata : String

pub data BodyIntent : Type 0 where
  inherit manual_intent auto : BodyIntent

-- The last two are of older rows.
pub data ResolvedSource : Type 0 where
  manual last_used auto_recommendation catalog_default_fallback : ResolvedSource
  fixed_default user_default_fallback : ResolvedSource

pub data ResolutionStatus : Type 0 where
  ready needs_selection body_unavailable body_not_applicable : ResolutionStatus

-- `shape_source` is none where there is no shape or its asset declares no source.
pub record BodySelection : Type 0 where
  pub person_index : ℕ
  pub intent : BodyIntent
  pub manual_character_id : Option String
  pub shape : Option BodyShape
  pub shape_source : Option ShapeSource
  pub recommendation : BodyRecommendation
  pub resolved_body : Option BodyRef
  pub resolved_source : Option ResolvedSource
  pub resolution_status : ResolutionStatus
  pub selection_revision : ℕ
  pub preview_only : Bool
