-- ===== src/Bodies/Tables.antt =====
-- body-selection/store.ts: the rows that it reads and writes, and the answers that it remembers. The
-- answers of the two kinds of resources are two lists here, since every query names its resource.
pub mod Remembered
use standin_app_server.Prelude.{
  ℕ, ◌+◌, Bool, true, false, not, ◌&&◌, ◌||◌, List, [], ◌∷◌, if◌then◌else◌, ltb, leb, ◌==◌, String,
  Option, none, some, Text, same, lookup, Tried, done, thrown, ◌>>=◌, ◌>>◌, throw_if,
}
use standin_app_server.Jobs.Rows.{Presentation}
use standin_app_server.Bodies.{
  Controls, BodyIntent, BodyMode, StoredPreferences, BodyPolicy, BodyRecommendation, BodySelection,
}
use standin_app_server.Bodies.Shape.{RawControls, ShapeInputError, invalid_shape, shape_unsupported}

pub record BodyError : Type 0 where
  pub code : String
  pub status : ℕ
  pub current_revision : Option ℕ

abbrev pub body_error : String → ℕ → BodyError
body_error code status = record { code = code; status = status; current_revision = none }

unfoldable pub shape_error : {A : Type 0} → Tried ShapeInputError A → Tried BodyError A
shape_error (done a) = done a
shape_error (thrown invalid_shape) = thrown (body_error "INVALID_SHAPE" 400)
shape_error (thrown shape_unsupported) = thrown (body_error "SHAPE_UNSUPPORTED" 409)

pub record Mutation : Type 0 where
  pub expected_revision : ℕ
  pub mutation_id : String

-- The changes as the routes pass them on.
pub data CardChange : Type 0 where
  create_card : Text → String → RawControls → CardChange
  update_card : String → Option Text → Option String → Option RawControls → CardChange
  delete_card : String → CardChange

pub record SelectionChange : Type 0 where
  pub mutation : Mutation
  pub intent : BodyIntent
  pub character_id : Option String
  pub shape : Option RawControls

-- What a request is, whose hash tells a repetition from another request with the same id.
pub data Payload : Type 0 where
  preference_payload : BodyMode → ℕ → Payload
  card_payload : ℕ → CardChange → Payload
  selection_payload : BodyIntent → Option String → ℕ → Option RawControls → Payload

abbrev pub PayloadHash : Type 0
PayloadHash = Payload → String

-- A row of body_mutations; the resource is the person of a job, or "preferences".
pub record BodyMutation (A : Type 0) : Type 0 where
  pub owner : String
  pub resource : String × ℕ
  pub mutation_id : String
  pub job : Option String
  pub payload_hash : String
  pub response : A
  pub created_at : ℕ

pub record SelectionRow : Type 0 where
  pub job_id : String
  pub person_index : ℕ
  pub value : BodySelection

-- An AnalysisPerson's part that bodies depend on; a candidate is its pose id, none where it is empty.
pub record BodyPerson : Type 0 where
  pub person_index : ℕ
  pub candidates : List (Option String)
  pub presentation : Option Presentation
  pub body_recommendation : Option BodyRecommendation

pub record BodyResult : Type 0 where
  pub is_semantic : Bool
  pub persons : List BodyPerson

pub record BodyJob : Type 0 where
  pub id : String
  pub installation_id : String
  pub status : String
  pub result_json : Option BodyResult
  pub body_policy_json : Option BodyPolicy

pub record BodyDb : Type 0 where
  pub installations : List String
  pub body_preferences : List (String × StoredPreferences)
  pub preference_mutations : List (BodyMutation StoredPreferences)
  pub selection_mutations : List (BodyMutation BodySelection)
  pub body_selections : List SelectionRow
  pub jobs : List BodyJob

-- An operation in a transaction: what it throws takes its writes back.
abbrev pub Transaction : Type 0 → Type 0
Transaction A = Tried BodyError (BodyDb × A)

abbrev pub preferences_resource : String × ℕ
preferences_resource = ("preferences", 0)

unfoldable pub expect : ℕ → ℕ → String → Tried BodyError (Unit {0})
expect actual wanted code =
    throw_if (not (actual == wanted))
      (record { code = code; status = 409; current_revision = some actual })

module _ {A : Type 0} where
  unfoldable pub is_resource : String → String × ℕ → BodyMutation A → Bool
  is_resource owner resource m =
      same m.owner owner && (same m.resource.0 resource.0 && (m.resource.1 == resource.1))

  unfoldable pub find_mutation :
      String → String × ℕ → String → List (BodyMutation A) → Option (BodyMutation A)
  find_mutation owner resource id [] = none
  find_mutation owner resource id (m ∷ ms) =
      if is_resource owner resource m && same m.mutation_id id
      then some m
      else find_mutation owner resource id ms

  -- The remembered answer of a request, if it is a repetition.
  unfoldable pub replayed : String → Option (BodyMutation A) → Tried BodyError (Option A)
  replayed hash none = done none
  replayed hash (some m) =
      if same m.payload_hash hash
      then done (some m.response)
      else thrown (body_error "IDEMPOTENCY_CONFLICT" 409)

  unfoldable pub replay :
      String → String × ℕ → Mutation → String → List (BodyMutation A) → Tried BodyError (Option A)
  replay owner resource m hash ms = replayed hash (find_mutation owner resource m.mutation_id ms)

  module _ (later_id : String → String → Bool) where
    unfoldable pub newer : BodyMutation A → BodyMutation A → Bool
    newer a b =
        ltb b.created_at a.created_at
        || ((a.created_at == b.created_at) && later_id a.mutation_id b.mutation_id)

    unfoldable pub count_newer : String → String × ℕ → BodyMutation A → List (BodyMutation A) → ℕ
    count_newer owner resource m [] = 0
    count_newer owner resource m (n ∷ ns) =
        (if is_resource owner resource n && newer n m then 1 else 0)
        + count_newer owner resource m ns

    -- The rows of a resource after its newest 128 are deleted.
    unfoldable pub evict :
        String → String × ℕ → List (BodyMutation A) → List (BodyMutation A) → List (BodyMutation A)
    evict owner resource all [] = []
    evict owner resource all (m ∷ ms) =
        let rest = evict owner resource all ms in
        if is_resource owner resource m && leb 128 (count_newer owner resource m all)
        then rest
        else m ∷ rest

    unfoldable pub remember : BodyMutation A → List (BodyMutation A) → List (BodyMutation A)
    remember m ms = evict m.owner m.resource (m ∷ ms) (m ∷ ms)
