-- ===== src/Bodies/Preferences.antt =====
-- body-selection/store.ts: the preferences and the cards of an installation.
pub mod Repeats
pub mod Cards
use standin_app_server.Prelude.{
  ℕ, suc, ◌+◌, Bool, true, false, not, ◌&&◌, ◌||◌, List, [], ◌∷◌, ◌++◌, if◌then◌else◌, ltb, leb,
  ◌==◌, String, Option, none, some, Text, length, same, lookup, insert, Tried, done, thrown, ◌>>=◌,
  ◌>>◌, throw_if,
}
use standin_app_server.Bodies.{
  ShapeControl, ShapeSpec, Controls, BodyShape, ShapeSource, BodyRef, BodyAsset, BodyCatalog,
  BodyCard, LastUsedBody, BodyMode, auto_mode, last_used_mode, BodyPreferences, StoredPreferences,
  LastBody, BodyPolicy, RecommendationStatus, available, unavailable, disabled, not_applicable,
  BodyRecommendation, BodyIntent, inherit, manual_intent, auto, ResolvedSource, manual, last_used,
  auto_recommendation, catalog_default_fallback, fixed_default, user_default_fallback,
  ResolutionStatus, ready, needs_selection, body_unavailable, body_not_applicable, BodySelection,
}
use standin_app_server.Bodies.Shape.{RawControls, ShapeInputError, mem, card_shape, as_input}
use standin_app_server.Bodies.Children.{white}
use standin_app_server.Bodies.Model.{
  default_preferences, normalize_preferences, stored, first_use_body, snapshot,
}
use standin_app_server.Bodies.Tables.{
  BodyError, body_error, shape_error, Mutation, CardChange, create_card, update_card, delete_card,
  Payload, preference_payload, card_payload, PayloadHash, BodyMutation, BodyDb, Transaction,
  preferences_resource, expect, replay, remember,
}

abbrev pub card_limit : ℕ
card_limit = 48

abbrev pub card_name_max : ℕ
card_name_max = 24

abbrev pub row_or : Option StoredPreferences → StoredPreferences
row_or none = default_preferences
row_or (some value) = value

unfoldable pub read_preferences : BodyDb → String → BodyPreferences
read_preferences db owner = normalize_preferences (row_or (lookup owner db.body_preferences))

unfoldable pub store_preferences : String → BodyPreferences → BodyDb → BodyDb
store_preferences owner value db = record db {
  body_preferences = insert owner (stored value) db.body_preferences;
}

unfoldable pub trim_start : Text → Text
trim_start [] = []
trim_start (c ∷ cs) = let rest = trim_start cs in if white c then rest else c ∷ cs

unfoldable pub trim_end : Text → Text
trim_end [] = []
trim_end (c ∷ cs) = elim (trim_end cs) [ [] ↦ if white c then [] else c ∷ [] | d ∷ ds ↦ c ∷ d ∷ ds ]

unfoldable pub card_name : Text → Tried BodyError Text
card_name raw =
    let name = trim_end (trim_start raw) in
    if (length name == 0) || ltb card_name_max (length name)
    then thrown (body_error "INVALID_CARD_NAME" 400)
    else done name

-- What the requests meet: the switch of the shapes, the catalog, which characters the converter has, the
-- order of the ids and the time.
pub record Deps : Type 0 where
  pub shapes_enabled : Bool
  pub catalog : BodyCatalog
  pub check : String → Bool
  pub payload_hash : PayloadHash
  pub later_id : String → String → Bool
  pub now : ℕ
  pub new_id : String

unfoldable pub card_body : Deps → String → RawControls → Tried BodyError (String × Controls)
card_body deps id raw = do
  body ← shape_error (card_shape deps.shapes_enabled deps.catalog id (some raw))
  throw_if (not (deps.check body.0)) (body_error "BODY_UNAVAILABLE" 409)
  done body

-- `cards.findIndex((c) => c.cardId === id)`
unfoldable pub find_card : String → List BodyCard → Option BodyCard
find_card id [] = none
find_card id (c ∷ cs) = if same c.card_id id then some c else find_card id cs

unfoldable pub remove_card : String → List BodyCard → List BodyCard
remove_card id [] = []
remove_card id (c ∷ cs) = let rest = remove_card id cs in if same c.card_id id then cs else c ∷ rest

unfoldable pub replace_card : String → BodyCard → List BodyCard → List BodyCard
replace_card id card [] = []
replace_card id card (c ∷ cs) =
    let rest = replace_card id card cs in if same c.card_id id then card ∷ cs else c ∷ rest

unfoldable pub found_card : String → List BodyCard → Tried BodyError BodyCard
found_card id cards = elim (find_card id cards) [
  | none ↦ thrown (body_error "CARD_NOT_FOUND" 404)
  | some c ↦ done c
]

abbrev controls_or : Option RawControls → Controls → RawControls
controls_or none old = as_input old
controls_or (some new) old = new

-- The body of a card is checked again if the change names its character or its controls.
unfoldable pub reshaped :
    Deps → BodyCard → Option String → Option RawControls → Tried BodyError (String × Controls)
reshaped deps card none none = done (card.character_id, card.controls)
reshaped deps card (some id) controls = card_body deps id (controls_or controls card.controls)
reshaped deps card none (some controls) = card_body deps card.character_id controls

unfoldable pub renamed : BodyCard → Option Text → Tried BodyError Text
renamed card none = done card.name
renamed card (some raw) = card_name raw

unfoldable pub change_cards : Deps → CardChange → List BodyCard → Tried BodyError (List BodyCard)
change_cards deps (create_card name character_id controls) cards = do
  throw_if (leb card_limit (length cards)) (body_error "CARD_LIMIT" 409)
  body ← card_body deps character_id controls
  text ← card_name name
  done (
      cards
      ++ (record {
        card_id = deps.new_id;
        name = text;
        character_id = body.0;
        controls = body.1;
        created_at = deps.now;
        updated_at = deps.now;
      })
        ∷ [])
change_cards deps (update_card id name character_id controls) cards = do
  card ← found_card id cards
  body ← reshaped deps card character_id controls
  text ← renamed card name
  done (
      replace_card id
        (record card {
          name = text;
          character_id = body.0;
          controls = body.1;
          updated_at = deps.now;
        })
        cards)
change_cards deps (delete_card id) cards = do
  card ← found_card id cards
  done (remove_card id cards)

-- The write of new preferences, with the answer that a repetition is given.
unfoldable pub save_preferences :
    Deps → String → Mutation → String → BodyPreferences → BodyDb → BodyDb
save_preferences deps owner request hash value db =
    let saved = store_preferences owner value db in
    record saved {
      preference_mutations =
          remember deps.later_id
            (record {
              owner = owner;
              resource = preferences_resource;
              mutation_id = request.mutation_id;
              job = none;
              payload_hash = hash;
              response = stored value;
              created_at = deps.now;
            })
            db.preference_mutations;
    }

unfoldable pub write_once :
    Deps
    → String
    → Mutation
    → String
    → (BodyPreferences → Tried BodyError BodyPreferences)
    → BodyDb
    → Option StoredPreferences
    → Transaction BodyPreferences
write_once deps owner request hash change db (some answer) = done (db, normalize_preferences answer)
write_once deps owner request hash change db none = do
  let current = read_preferences db owner
  expect current.revision request.expected_revision "BODY_PREFERENCE_CONFLICT"
  changed ← change current
  let value = record changed { revision = suc current.revision }
  done (save_preferences deps owner request hash value db, value)

-- A write of the preferences: the lock on the installation, the repetition, the revision, and the change.
unfoldable pub write_with :
    Deps
    → String
    → Mutation
    → Payload
    → (BodyPreferences → Tried BodyError BodyPreferences)
    → BodyDb
    → Transaction BodyPreferences
write_with deps owner request payload change db = do
  throw_if (not (mem owner db.installations)) (body_error "NOT_FOUND" 404)
  let hash = deps.payload_hash payload
  previous ← replay owner preferences_resource request hash db.preference_mutations
  write_once deps owner request hash change db previous

unfoldable pub write_preferences :
    Deps → String → Mutation → BodyMode → BodyDb → Transaction BodyPreferences
write_preferences deps owner request mode db =
    write_with deps owner request (preference_payload mode request.expected_revision)
      (λ current. done (record current { mode = mode })) db

unfoldable pub with_cards : Deps → CardChange → BodyPreferences → Tried BodyError BodyPreferences
with_cards deps change current = do
  cards ← change_cards deps change current.cards
  done (record current { cards = cards })

unfoldable pub write_cards :
    Deps → String → Mutation → CardChange → BodyDb → Transaction BodyPreferences
write_cards deps owner request change db =
    write_with deps owner request (card_payload request.expected_revision change)
      (with_cards deps change) db
