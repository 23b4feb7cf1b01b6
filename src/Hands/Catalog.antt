-- ===== src/Hands/Catalog.antt =====
-- hands/model.ts parseCatalog: the answer of the inference server with the hand shapes it offers.
use standin_app_server.Prelude.{
  Bool, true, false, not, ◌&&◌, List, [], ◌∷◌, ◌++◌, if◌then◌else◌, ltb, ◌==◌, String, Option, none,
  some, length, Number, not_integer, negative, integer, Json, null, field_of, text_of, boolean_of,
  number_of, array_of, Tried, done, thrown, ◌>>=◌, ◌>>◌, throw_if,
}
use Prim.Native.String.{◌++◌ as string_append}
use standin_app_server.Hands.{HandError, hands_unavailable, is_preset, is_sha, record_of, mem}

pub record Preset : Type 0 where
  pub id : String
  pub label : String
  pub description : String
  pub thumbnails : Option (String × String)

pub record Category : Type 0 where
  pub id : String
  pub label : String
  pub presets : List Preset

pub record HandCatalog : Type 0 where
  pub library_version : String
  pub library_sha256 : String
  pub default_preset : String
  pub fallback_order : List String
  pub thumbnails_available : Bool
  pub categories : List Category

-- `if (...) throw invalid();`, for a value of a type and for a test.
abbrev pub need : {A : Type 0} → Option A → Tried HandError A
need none = thrown hands_unavailable
need (some a) = done a

abbrev pub need_test : Bool → Tried HandError (Unit {0})
need_test b = throw_if (not b) hands_unavailable

thumbnail_path : String → String → String
thumbnail_path id side =
    string_append "/v1/hands/" (string_append id (string_append "/thumbnail?side=" side))

is_nullish : Option Json → Bool
is_nullish none = true
is_nullish (some null) = true
is_nullish (some v) = false

unfoldable pub thumbnails_of : Bool → String → Option Json → Option (String × String)
unfolding is_nullish thumbnail_path
thumbnails_of available id v =
    if available && not (is_nullish v)
    then some (thumbnail_path id "left", thumbnail_path id "right")
    else none

-- One preset, with the set of the ids so far.
unfoldable pub parse_preset : Bool → Json → List String → Tried HandError Preset
parse_preset available raw ids = do
  let p = record_of (some raw)
  id ← need (text_of (field_of "id" p))
  need_test (is_preset id && not (mem id ids))
  label ← need (text_of (field_of "label" p))
  description ← need (text_of (field_of "description" p))
  done (record {
    id = id;
    label = label;
    description = description;
    thumbnails = thumbnails_of available id (field_of "thumbnails" p);
  })

unfoldable pub parse_presets :
    Bool → List Json → List String → Tried HandError (List Preset × List String)
parse_presets available [] ids = done ([], ids)
parse_presets available (raw ∷ raws) ids = do
  p ← parse_preset available raw ids
  rest ← parse_presets available raws (p.id ∷ ids)
  done (p ∷ rest.0, rest.1)

unfoldable pub parse_category : Bool → Json → List String → Tried HandError (Category × List String)
parse_category available raw ids = do
  let c = record_of (some raw)
  id ← need (text_of (field_of "id" c))
  need_test (is_preset id)
  label ← need (text_of (field_of "label" c))
  presets ← need (array_of (field_of "presets" c))
  need_test (not (ltb 200 (length presets)))
  parsed ← parse_presets available presets ids
  done (record { id = id; label = label; presets = parsed.0 }, parsed.1)

unfoldable pub parse_categories :
    Bool → List Json → List String → Tried HandError (List Category × List String)
parse_categories available [] ids = done ([], ids)
parse_categories available (raw ∷ raws) ids = do
  c ← parse_category available raw ids
  rest ← parse_categories available raws c.1
  done (c.0 ∷ rest.0, rest.1)

unfoldable pub is_one : Option Number → Bool
is_one (some (integer n)) = n == 1
is_one (some (negative n)) = false
is_one (some not_integer) = false
is_one none = false

unfoldable pub is_true : Option Bool → Bool
is_true (some b) = b
is_true none = false

-- The texts that are ids of the library.
unfoldable pub known_texts : List String → List Json → List String
known_texts ids [] = []
known_texts ids (v ∷ vs) =
    let rest = known_texts ids vs in
    elim (text_of (some v)) [ none ↦ rest | some t ↦ if mem t ids then t ∷ rest else rest ]

unfoldable pub order_of : List String → Option (List Json) → List String
order_of ids none = []
order_of ids (some vs) = known_texts ids vs

unfoldable pub parse_catalog : Option Json → Tried HandError HandCatalog
unfolding order_of
parse_catalog value = do
  let v = record_of value
  need_test (is_one (number_of (field_of "schema_version" v)))
  version ← need (text_of (field_of "library_version" v))
  sha ← need (text_of (field_of "library_sha256" v))
  need_test (is_sha sha)
  default_preset ← need (text_of (field_of "default_preset" v))
  raws ← need (array_of (field_of "categories" v))
  need_test (ltb 0 (length raws) && not (ltb 50 (length raws)))
  parsed ← parse_categories (is_true (boolean_of (field_of "thumbnails_available" v))) raws []
  need_test (mem default_preset parsed.1)
  done (record {
    library_version = version;
    library_sha256 = sha;
    default_preset = default_preset;
    fallback_order = order_of parsed.1 (array_of (field_of "fallback_order" v));
    thumbnails_available = is_true (boolean_of (field_of "thumbnails_available" v));
    categories = parsed.0;
  })

abbrev pub preset_ids : List Preset → List String
preset_ids [] = []
preset_ids (p ∷ ps) = p.id ∷ preset_ids ps

-- `catalog.categories.flatMap((c) => c.presets.map((p) => p.id))`
abbrev pub ids_of : List Category → List String
ids_of [] = []
ids_of (c ∷ cs) = preset_ids c.presets ++ ids_of cs
