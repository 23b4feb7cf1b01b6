-- ===== src/Hands.antt =====
-- hands/model.ts: the hand shapes that are observed, offered and chosen.
pub mod Catalog
pub mod Library
pub mod Store
pub mod Requests
pub mod Service
pub mod Flights
pub mod Ready
pub mod Calls
pub mod Revisions
mod Tests
use standin_app_server.Prelude.{
  ℕ, Bool, true, false, not, ◌&&◌, ◌||◌, List, [], ◌∷◌, map, if◌then◌else◌, ltb, leb, ◌==◌, String,
  Option, none, some, Text, codes, length, take, same, Number, Json, Fields, end, field_of, text_of,
  boolean_of, array_of, object_of,
}

pub data Side : Type 0 where
  left right : Side

pub data HandSource : Type 0 where
  vlm default : HandSource

pub data HandStatus : Type 0 where
  vlm not_requested unavailable : HandStatus

pub data Confidence : Type 0 where
  high low : Confidence

pub record HandChoice : Type 0 where
  pub preset : String
  pub source : HandSource
  pub confidence : Option Confidence
  pub visible : Option Bool
  pub candidates : List String

pub record PersonHands : Type 0 where
  pub left : HandChoice
  pub right : HandChoice
  pub library_version : String
  pub status : HandStatus

pub record HandSelection : Type 0 where
  pub person_index : ℕ
  pub left : String
  pub right : String
  pub recommended_left : String
  pub recommended_right : String
  pub observation : PersonHands
  pub library_version : String
  pub library_sha256 : String
  pub revision : ℕ
  pub changed : List Side

pub record HandBake : Type 0 where
  pub left : String
  pub right : String
  pub library_version : String
  pub library_sha256 : String
  pub revision : ℕ

-- The code of a HandError, which settles its status; the message is left out.
pub data HandError : Type 0 where
  not_found not_ready hands_not_applicable hand_library_changed invalid_hand_preset hands_changed :
      HandError
  hands_unavailable hand_selection_disabled invalid_input : HandError

is_lower : ℕ → Bool
is_lower c = leb b'a' c && leb c b'z'

is_digit : ℕ → Bool
is_digit c = leb b'0' c && leb c b'9'

all_of : (ℕ → Bool) → Text → Bool
all_of test [] = true
all_of test (c ∷ cs) = test c && all_of test cs

preset_codes : Text → Bool
preset_codes [] = false
preset_codes (c ∷ cs) =
    is_lower c && (all_of (λ d. is_lower d || (is_digit d || (d == b'_'))) cs && leb (length cs) 63)

-- PRESET.test
unfoldable pub is_preset : String → Bool
unfolding preset_codes all_of is_lower is_digit
is_preset id = preset_codes (codes id)

hex : ℕ → Bool
hex c = (leb b'a' c && leb c b'f') || is_digit c

-- SHA.test
unfoldable pub is_sha : String → Bool
unfolding all_of hex is_digit
is_sha t = all_of hex (codes t) && (length (codes t) == 64)

-- `record(value)`; `undefined` is none.
unfoldable pub record_of : Option Json → Fields
record_of v = elim (object_of v) [ some fs ↦ fs | none ↦ end ]

unfoldable pub mem : String → List String → Bool
mem a [] = false
mem a (b ∷ bs) = same b a || mem a bs

-- The texts of an array that are ids of presets.
unfoldable pub preset_texts : List Json → List String
preset_texts [] = []
preset_texts (v ∷ vs) =
    let rest = preset_texts vs in
    elim (text_of (some v)) [ none ↦ rest | some t ↦ if is_preset t then t ∷ rest else rest ]

-- `[...new Set(list)]`: each text where it comes first. `seen` holds those before.
unfoldable pub distinct : List String → List String → List String
distinct seen [] = []
distinct seen (a ∷ rest) = elim (mem a seen) [
  | true ↦ distinct seen rest
  | false ↦ a ∷ distinct (a ∷ seen) rest
]

or_relaxed : Option String → String
or_relaxed none = "relaxed"
or_relaxed (some t) = if is_preset t then t else "relaxed"

source_of : Option String → HandSource
source_of none = HandSource.default
source_of (some t) = if same t "vlm" then HandSource.vlm else HandSource.default

confidence_of : Option String → Option Confidence
confidence_of none = none
confidence_of (some t) =
    if same t "high" then some high else (if same t "low" then some low else none)

candidates_of : Option (List Json) → List String
candidates_of none = []
candidates_of (some vs) = take 4 (distinct [] (preset_texts vs))

unfoldable pub choice : Fields → HandChoice
unfolding or_relaxed source_of confidence_of candidates_of
choice v = record {
  preset = or_relaxed (text_of (field_of "preset" v));
  source = source_of (text_of (field_of "source" v));
  confidence = confidence_of (text_of (field_of "confidence" v));
  visible = boolean_of (field_of "visible" v);
  candidates = candidates_of (array_of (field_of "candidates" v));
}

or_empty : Option String → String
or_empty none = ""
or_empty (some t) = t

status_of : Option String → HandStatus
status_of none = HandStatus.not_requested
status_of (some t) =
    if same t "vlm"
    then HandStatus.vlm
    else (if same t "unavailable" then HandStatus.unavailable else HandStatus.not_requested)

unfoldable pub read_hands : Option Json → PersonHands
unfolding or_empty status_of
read_hands value =
    let raw = record_of value in
    record {
      left = choice (record_of (field_of "left" raw));
      right = choice (record_of (field_of "right" raw));
      library_version = or_empty (text_of (field_of "library_version" raw));
      status = status_of (text_of (field_of "status" raw));
    }
