-- ===== src/Bodies/Model.antt =====
-- body-selection/model.ts: which body a person is shown with.
use standin_app_server.Prelude.{
  Bool, true, false, ◌&&◌, ◌||◌, List, [], ◌∷◌, ◌++◌, if◌then◌else◌, ltb, ◌==◌, String, Option,
  none, some, Text, codes, same, length, done, thrown,
}
use standin_app_server.Bodies.{
  Controls, BodyRef, BodyAsset, BodyCatalog, BodyCard, LastUsedBody, BodyMode, auto_mode,
  last_used_mode, BodyPreferences, StoredPreferences, LastBody, BodyPolicy,
}
use standin_app_server.Bodies.Shape.{ShapeHash, body_shape, find_character, mem, as_input}

abbrev pub default_preferences : StoredPreferences
default_preferences = record {
  mode = "last_used";
  cards = some [];
  last_used = none;
  shape_default = none;
  revision = 0;
}

-- The references are compared as the texts of their fields.
unfoldable pub same_body : BodyRef → BodyRef → Bool
same_body a b =
    same a.body_id b.body_id
    && (same a.body_version b.body_version
        && (same a.asset_sha256 b.asset_sha256
            && (same a.rig_version b.rig_version
                && (same a.measurement_version b.measurement_version
                    && same a.character_id b.character_id))))

unfoldable pub supports : List String → BodyAsset → Bool
supports [] a = true
supports (p ∷ ps) a = mem p a.supported_pose_ids && supports ps a

unfoldable pub has_asset : BodyRef → List String → List BodyAsset → Bool
has_asset ref poses [] = false
has_asset ref poses (a ∷ rest) =
    (same_body a.ref ref && supports poses a) || has_asset ref poses rest

unfoldable pub eligible : Option BodyRef → BodyCatalog → List String → Bool
eligible none catalog poses = false
eligible (some ref) catalog poses = has_asset ref poses catalog.assets

-- With no poses to ask for, the test of the assets is that of the identity alone.
unfoldable pub preview_eligible : Option BodyRef → BodyCatalog → List String → Bool
preview_eligible none catalog poses = false
preview_eligible (some ref) catalog poses = ltb 0 (length poses) && has_asset ref [] catalog.assets

unfoldable pub body_eligible : Option BodyRef → BodyCatalog → List String → Bool → Bool
body_eligible ref catalog poses preview_only =
    if preview_only then preview_eligible ref catalog poses else eligible ref catalog poses

-- `/^male-base(?:-|$)/`
unfoldable pub is_male_base : Text → Text → Bool
is_male_base [] [] = true
is_male_base [] (c ∷ cs) = c == b'-'
is_male_base (p ∷ ps) [] = false
is_male_base (p ∷ ps) (c ∷ cs) = (p == c) && is_male_base ps cs

unfoldable pub first_male : List BodyAsset → Option BodyRef
first_male [] = none
first_male (a ∷ rest) =
    if is_male_base (codes "male-base") (codes a.ref.character_id)
    then some a.ref
    else first_male rest

unfoldable pub first_use_body : BodyCatalog → Option BodyRef
first_use_body catalog = first_male catalog.assets

unfoldable pub has_card : String → List BodyCard → Bool
has_card id [] = false
has_card id (c ∷ cs) = same c.card_id id || has_card id cs

abbrev pub migrated_card_id : String
migrated_card_id = "my-default"

abbrev cards_in : Option (List BodyCard) → List BodyCard
cards_in none = []
cards_in (some cs) = cs

unfoldable pub migrated_cards : Option (String × Controls) → List BodyCard → List BodyCard
migrated_cards none cards = cards
migrated_cards (some (character_id, controls)) cards =
    if has_card migrated_card_id cards
    then cards
    else cards
      ++ (record {
        card_id = migrated_card_id;
        name = codes "내 기본 체형";
        character_id = character_id;
        controls = controls;
        created_at = 0;
        updated_at = 0;
      })
        ∷ []

unfoldable pub normalize_preferences : StoredPreferences → BodyPreferences
normalize_preferences value = record {
  mode = if same value.mode "auto" then auto_mode else last_used_mode;
  cards = migrated_cards value.shape_default (cards_in value.cards);
  last_used = value.last_used;
  revision = value.revision;
}

abbrev pub mode_text : BodyMode → String
mode_text auto_mode = "auto"
mode_text last_used_mode = "last_used"

-- Preferences as they are written to a row.
unfoldable pub stored : BodyPreferences → StoredPreferences
stored p = record {
  mode = mode_text p.mode;
  cards = some p.cards;
  last_used = p.last_used;
  shape_default = none;
  revision = p.revision;
}

module _ (hash : ShapeHash) (enabled : Bool) where
  -- Controls that do not fit any more drop the body.
  unfoldable pub last_used_body : Option LastUsedBody → BodyCatalog → Option LastBody
  last_used_body none catalog = none
  last_used_body (some last) catalog = elim (find_character last.character_id catalog.assets) [
    | none ↦ none
    | some asset ↦ elim last.controls [
      | none ↦ some (record { body = asset.ref; shape = none })
      | some controls ↦ elim (body_shape hash enabled asset (some (as_input controls))) [
        | done shape ↦ some (record { body = asset.ref; shape = shape })
        | thrown e ↦ none
      ]
    ]
  ]

  unfoldable pub snapshot : StoredPreferences → BodyCatalog → BodyPolicy
  snapshot value catalog =
      let preferences = normalize_preferences value in
      record {
        preferences = stored preferences;
        last_used = some (last_used_body preferences.last_used catalog);
        first_use_default = some (first_use_body catalog);
      }
