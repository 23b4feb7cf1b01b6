-- ===== src/Bodies/Samples.antt =====
-- Bodies, persons and requests that the tests of this component run on.
use standin_app_server.Prelude.{
  refl, true, false, [], ◌∷◌, String, none, some, codes, pos, done, thrown,
}
use standin_app_server.Bodies.{
  ShapeControl, ShapeSpec, Controls, BodyRef, BodyAsset, BodyCatalog, auto_mode, BodyPreferences,
  BodyPolicy, available, BodyRecommendation, BodyIntent, inherit, ResolvedSource,
  catalog_default_fallback, ready, BodySelection,
}
use standin_app_server.Bodies.Shape.{ShapeHash}
use standin_app_server.Bodies.Model.{default_preferences}
use standin_app_server.Bodies.Choice.{Request}
use standin_app_server.Bodies.Tables.{
  Mutation, CardChange, create_card, SelectionChange, BodyPerson, BodyDb, Transaction,
}
use standin_app_server.Bodies.Tables.Remembered.{IsStrict}
use standin_app_server.Bodies.Preferences.{Deps, write_preferences, write_cards}
use standin_app_server.Bodies.Persons.{OwnedPerson}
use standin_app_server.Bodies.Selections.Options.{pick}
use standin_app_server.Bodies.Selections.Writes.{write_selection}

abbrev pub hash : ShapeHash
hash ref controls = "shape"

-- From 0 to 1, in tenths.
abbrev pub height : ShapeControl
height = record {
  key = "height";
  lowest = pos 0;
  highest = pos 1000000000000;
  step = 100000000000;
  default = pos 500000000000;
  label = none;
}

abbrev pub spec : ShapeSpec
spec = record { controls = height ∷ []; basic = none }

abbrev pub third : Controls
third = ("height", pos 300000000000) ∷ []

abbrev pub ref_of : String → BodyRef
ref_of id = record {
  body_id = id;
  body_version = "1";
  asset_sha256 = "asset";
  rig_version = "rig";
  measurement_version = "m";
  character_id = id;
}

abbrev pub asset : String → BodyAsset
asset id = record {
  ref = ref_of id;
  display_name = none;
  supported_pose_ids = "pose" ∷ [];
  shape = some spec;
  shape_source = none;
  metadata = "";
}

abbrev pub adult : BodyAsset
adult = asset "male-base-01"

abbrev pub child : BodyAsset
child = asset "kid_01"

abbrev pub catalog : BodyCatalog
catalog = record { version = "v1"; default_character_id = none; assets = adult ∷ child ∷ [] }

abbrev pub deps : Deps
deps = record {
  shapes_enabled = true;
  catalog = catalog;
  check = λ id. true;
  payload_hash = λ p. "payload";
  later_id = λ a b. false;
  now = 100;
  new_id = "card_1";
}

pub strict : IsStrict deps.later_id
strict = record { irreflexive = λ id. refl }

abbrev pub advice : BodyRef → BodyRecommendation
advice ref = record { status = available; body = some ref; reason_codes = []; metadata = "" }

abbrev pub policy : BodyPolicy
policy = record { preferences = default_preferences; last_used = none; first_use_default = none }

abbrev pub request : BodyIntent → Request
request intent = record {
  person_index = 0;
  poses = "pose" ∷ [];
  intent = intent;
  manual = none;
  revision = 0;
  shape = none;
  preview_only = false;
}

abbrev pub person : BodyPerson
person = record {
  person_index = 0;
  candidates = some "pose" ∷ [];
  presentation = none;
  body_recommendation = some (advice child.ref);
}

abbrev pub chosen : ResolvedSource → BodyIntent → BodyRef → BodySelection
chosen source intent ref = record {
  person_index = 0;
  intent = intent;
  manual_character_id = none;
  shape = none;
  shape_source = none;
  recommendation = advice child.ref;
  resolved_body = some ref;
  resolved_source = some source;
  resolution_status = ready;
  selection_revision = 0;
  preview_only = false;
}

abbrev pub first_choice : BodySelection
first_choice = chosen catalog_default_fallback inherit adult.ref

abbrev pub start : BodyDb
start = record {
  installations = "home" ∷ [];
  body_preferences = [];
  preference_mutations = [];
  selection_mutations = [];
  body_selections = record { job_id = "job"; person_index = 0; value = first_choice } ∷ [];
  jobs =
      record {
        id = "job";
        installation_id = "home";
        status = "completed";
        result_json = some (record { is_semantic = false; persons = person ∷ [] });
        body_policy_json = some policy;
      }
      ∷ [];
}

abbrev pub db_of : {A : Type 0} → BodyDb → Transaction A → BodyDb
db_of old (done (db, a)) = db
db_of old (thrown e) = old

abbrev pub value_of : {A : Type 0} → A → Transaction A → A
value_of old (done (db, a)) = a
value_of old (thrown e) = old

abbrev pub mutation : String → Mutation
mutation id = record { expected_revision = 0; mutation_id = id }

abbrev pub no_preferences : BodyPreferences
no_preferences = record { mode = auto_mode; cards = []; last_used = none; revision = 0 }

abbrev pub new_card : CardChange
new_card = create_card (codes " A ") "male-base-01" []

abbrev pub carded : Transaction BodyPreferences
carded = write_cards deps "home" (mutation "m1") new_card start

abbrev pub auto_saved : Transaction BodyPreferences
auto_saved = write_preferences deps "home" (mutation "m1") auto_mode start

abbrev pub owned : OwnedPerson
owned = record { person = person; policy = policy; semantic = false }

abbrev pub by_hand : String → SelectionChange
by_hand id = pick hash deps child id 0

abbrev pub picked : Transaction BodySelection
picked = write_selection hash deps start "home" "job" 0 (by_hand "m1")
