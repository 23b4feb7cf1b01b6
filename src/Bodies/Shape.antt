-- ===== src/Bodies/Shape.antt =====
-- body-selection/shape.ts: the numeric controls of a body. The hash of a shape is an argument. A step
-- that is not positive is 0.
use standin_app_server.Prelude.{
  ℕ, ◌+◌, ◌*◌, ◌/◌, Bool, true, false, not, ◌&&◌, ◌||◌, List, [], ◌∷◌, if◌then◌else◌, ltb, leb,
  ◌==◌, String, Option, none, some, Text, codes, length, same, lookup, min, ℤ, pos, negsuc, leb_ℤ,
  ltb_ℤ, above, plus_ℕ, distance, sub_ℕ, suc, Tried, done, thrown, ◌>>=◌, ◌>>◌, throw_if,
}
use standin_app_server.Bodies.{
  ShapeControl, ShapeSpec, Controls, BodyShape, ShapeSource, BodyRef, BodyAsset, BodyCatalog,
}

-- The code of a ShapeInputError.
pub data ShapeInputError : Type 0 where
  invalid_shape shape_unsupported : ShapeInputError

is_lower : ℕ → Bool
is_lower c = leb b'a' c && leb c b'z'

is_digit : ℕ → Bool
is_digit c = leb b'0' c && leb c b'9'

all_of : (ℕ → Bool) → Text → Bool
all_of test [] = true
all_of test (c ∷ cs) = test c && all_of test cs

rule_codes : Text → Bool
rule_codes [] = false
rule_codes (c ∷ cs) =
    (is_lower c || is_digit c)
    && (all_of (λ d. (is_lower d || is_digit d) || ((d == b'.') || (d == b'-'))) cs
        && leb (length cs) 63)

hex : ℕ → Bool
hex c = (leb b'a' c && leb c b'f') || is_digit c

is_sha256 : String → Bool
is_sha256 t = all_of hex (codes t) && (length (codes t) == 64)

-- The fields of a source are texts.
unfoldable pub valid_shape_source : Option ShapeSource → Bool
unfolding rule_codes is_sha256 hex all_of is_lower is_digit
valid_shape_source none = false
valid_shape_source (some s) =
    rule_codes (codes s.rules) && (is_sha256 s.blend_sha256 && is_sha256 s.controller_sha256)

unfoldable pub same_shape_source : Option ShapeSource → Option ShapeSource → Bool
same_shape_source none b = false
same_shape_source (some a) none = false
same_shape_source (some a) (some b) =
    same b.rules a.rules
    && (same b.blend_sha256 a.blend_sha256 && same b.controller_sha256 a.controller_sha256)

key_codes : Text → Bool
key_codes [] = false
key_codes (c ∷ cs) =
    is_lower c && (all_of (λ d. is_lower d || (is_digit d || (d == b'_'))) cs && leb (length cs) 39)

unfoldable pub mem : String → List String → Bool
mem a [] = false
mem a (b ∷ bs) = same b a || mem a bs

-- Math.round((v - min) / step), for a value that is not below the lowest.
unfoldable pub nearest : ShapeControl → ℤ → ℕ
nearest c v = (2 * above c.lowest v + c.step) / (2 * c.step)

-- |v - (min + n * step)|
unfoldable pub off_grid : ShapeControl → ℤ → ℕ
off_grid c v = distance (plus_ℕ c.lowest (nearest c v * c.step)) v

-- |n - round(n)| <= 1e-5, in steps.
unfoldable pub on_grid : ShapeControl → ℤ → Bool
on_grid c v = leb (100000 * off_grid c v) c.step

-- The length of a text counts its UTF-16 units.
units : Text → ℕ
units [] = 0
units (c ∷ cs) = (if leb 65536 c then 2 else 1) + units cs

valid_label : Option String → Bool
unfolding units
valid_label none = true
valid_label (some t) = ltb 0 (units (codes t)) && leb (units (codes t)) 24

unfoldable pub valid_control : List String → ShapeControl → Bool
unfolding key_codes all_of is_lower is_digit valid_label units
valid_control keys c =
    key_codes (codes c.key)
    && (not (mem c.key keys)
        && (ltb_ℤ c.lowest c.highest
            && (ltb 0 c.step
                && (leb_ℤ c.lowest c.default
                    && (leb_ℤ c.default c.highest
                        && (on_grid c c.default && valid_label c.label))))))

unfoldable pub valid_controls : List String → List ShapeControl → Bool
valid_controls keys [] = true
valid_controls keys (c ∷ cs) = valid_control keys c && valid_controls (c.key ∷ keys) cs

valid_basic : Option ℕ → ℕ → Bool
valid_basic none count = true
valid_basic (some n) count = ltb 0 n && leb n (min 12 count)

-- The schema version is that of the type.
unfoldable pub valid_shape_spec : ShapeSpec → Bool
unfolding valid_basic
valid_shape_spec s =
    ltb 0 (length s.controls)
    && (leb (length s.controls) 64
        && (valid_basic s.basic (length s.controls) && valid_controls [] s.controls))

-- Nothing accepts controls while the switch is off.
unfoldable pub shape_spec : Bool → Option BodyAsset → Option ShapeSpec
shape_spec enabled none = none
shape_spec enabled (some a) = if enabled then a.shape else none

-- Number(x.toFixed(6)): the sixth decimal, halves away from zero.
abbrev micro : ℕ
micro = 1000000

rounded : ℕ → ℕ
rounded n = (n + 500000) / micro * micro

unfoldable pub to_fixed : ℤ → ℤ
unfolding rounded
to_fixed (pos n) = pos (rounded n)
to_fixed (negsuc n) = sub_ℕ 0 (rounded (suc n))

-- Math.abs(snapped - v) > c.step * 1e-6 + 1e-9
unfoldable pub snap : ShapeControl → ℤ → Tried ShapeInputError ℤ
snap c v =
    if ltb (c.step + 1000000000) (1000000 * off_grid c v)
    then thrown invalid_shape
    else done (to_fixed (plus_ℕ c.lowest (nearest c v * c.step)))

-- The properties of the object of a request; none is a value that is not a finite number.
abbrev pub RawControls : Type 0
RawControls = List (String × Option ℤ)

-- Controls of a row as the input of a normalization.
abbrev pub as_input : Controls → RawControls
as_input [] = []
as_input ((k, v) ∷ rest) = (k, some v) ∷ as_input rest

abbrev pub keys_of_spec : List ShapeControl → List String
keys_of_spec [] = []
keys_of_spec (c ∷ cs) = c.key ∷ keys_of_spec cs

unfoldable pub all_known : List String → RawControls → Bool
all_known known [] = true
all_known known ((k, v) ∷ raw) = mem k known && all_known known raw

-- The properties that every object inherits, none of which is a number.
abbrev inherited : List String
inherited =
    "constructor" ∷ "hasOwnProperty" ∷ "isPrototypeOf" ∷ "propertyIsEnumerable" ∷ "toLocaleString"
    ∷ "toString" ∷ "valueOf" ∷ "__defineGetter__" ∷ "__defineSetter__" ∷ "__lookupGetter__"
    ∷ "__lookupSetter__" ∷ "__proto__" ∷ []

-- `c.key in input ? input[c.key] : c.default`, where `in` finds the inherited properties too.
unfoldable pub given : String → Option (Option ℤ) → ℤ → Option ℤ
given key none default = if mem key inherited then none else some default
given key (some v) default = v

unfoldable pub accept : ShapeControl → Option ℤ → Tried ShapeInputError ℤ
accept c none = thrown invalid_shape
accept c (some v) = if leb_ℤ c.lowest v && leb_ℤ v c.highest then snap c v else thrown invalid_shape

unfoldable pub normalize_all : List ShapeControl → RawControls → Tried ShapeInputError Controls
normalize_all [] raw = done []
normalize_all (c ∷ cs) raw = do
  v ← accept c (given c.key (lookup c.key raw) c.default)
  rest ← normalize_all cs raw
  done ((c.key, v) ∷ rest)

-- `raw` is none where it is not an object.
unfoldable pub normalize_controls : ShapeSpec → Option RawControls → Tried ShapeInputError Controls
normalize_controls spec none = thrown invalid_shape
normalize_controls spec (some raw) = do
  throw_if (not (all_known (keys_of_spec spec.controls) raw)) invalid_shape
  normalize_all spec.controls raw

-- A key that is missing gives NaN, which is never within the tolerance.
abbrev is_near : Option ℤ → ShapeControl → Bool
is_near none c = false
is_near (some v) c = leb (1000000 * distance v c.default) c.step

unfoldable pub is_default_shape : List ShapeControl → Controls → Bool
is_default_shape [] controls = true
is_default_shape (c ∷ cs) controls =
    is_near (lookup c.key controls) c && is_default_shape cs controls

abbrev pub ShapeHash : Type 0
ShapeHash = BodyRef → Controls → String

-- The default shape is none: the plain asset.
unfoldable pub body_shape :
    ShapeHash → Bool → BodyAsset → Option RawControls → Tried ShapeInputError (Option BodyShape)
body_shape hash enabled asset raw = elim (shape_spec enabled (some asset)) [
  | none ↦ thrown shape_unsupported
  | some spec ↦ do
    controls ← normalize_controls spec raw
    done (
        if is_default_shape spec.controls controls
        then none
        else some (record { controls = controls; shape_sha256 = hash asset.ref controls }))
]

-- `catalog.assets.find((a) => a.characterId === id)`
unfoldable pub find_character : String → List BodyAsset → Option BodyAsset
find_character id [] = none
find_character id (a ∷ rest) = if same a.ref.character_id id then some a else find_character id rest

-- The card of a request: a character and controls.
unfoldable pub card_shape :
    Bool → BodyCatalog → String → Option RawControls → Tried ShapeInputError (String × Controls)
card_shape enabled catalog id raw = elim (find_character id catalog.assets) [
  | none ↦ thrown shape_unsupported
  | some a ↦ elim (shape_spec enabled (some a)) [
    | none ↦ thrown shape_unsupported
    | some spec ↦ do controls ← normalize_controls spec raw; done (a.ref.character_id, controls)
  ]
]

unfoldable pub shape_editable : Bool → List BodyAsset → List (String × ShapeSpec)
shape_editable enabled [] = []
shape_editable enabled (a ∷ rest) =
    let others = shape_editable enabled rest in
    elim (shape_spec enabled (some a)) [
      | none ↦ others
      | some spec ↦ (a.ref.character_id, spec) ∷ others
    ]

-- A shaped body is shown only if it can be baked.
unfoldable pub shape_renderable : Bool → Option BodyShape → Option ShapeSource → Bool
shape_renderable bake_enabled none source = true
shape_renderable bake_enabled (some s) source = bake_enabled && valid_shape_source source
