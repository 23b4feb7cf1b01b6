-- ===== src/Scopes.antt =====
-- output-scope/model.ts: how much of a body a person's output shows. Fields of a stored or received
-- value are optional texts; anything else that JSON allows there is none.
pub mod Resolution
mod Tests
use standin_app_server.Prelude.{
  ℕ, ◌≡◌, Bool, true, false, List, [], ◌∷◌, if◌then◌else◌, ite, Option, none, some, String,
  String-discrete,
}

pub data BodyScope : Type 0 where
  full half bust shoulder_head head : BodyScope

pub data ScopeSelection : Type 0 where
  auto : ScopeSelection
  chosen : BodyScope → ScopeSelection

pub data DetectionSource : Type 0 where
  vlm_person vlm_description legacy_shot observed_legs unknown : DetectionSource

pub data ResolutionSource : Type 0 where
  by_detection by_user by_fallback : ResolutionSource

pub record OutputScope : Type 0 where
  pub selection : ScopeSelection
  pub detected : Option BodyScope
  pub mesh_scope : Option BodyScope
  pub detection_source : DetectionSource
  pub resolved : BodyScope
  pub resolution_source : ResolutionSource

-- A `Partial<OutputScope>`, as it is read: unchecked texts.
pub record RawScope : Type 0 where
  pub selection : Option String
  pub detected : Option String
  pub mesh_scope : Option String
  pub detection_source : Option String
  pub resolved : Option String

abbrev is : String → String → Bool
is a b = ite (String-discrete a b) true false

read_scope : String → Option BodyScope
read_scope t =
    if is t "full"
    then some full
    else (if is t "half"
        then some half
        else (if is t "bust"
            then some bust
            else (if is t "shoulder_head"
                then some shoulder_head
                else (if is t "head" then some head else none))))

-- `isBodyScope(value) ? value : null`
unfoldable pub body_scope : Option String → Option BodyScope
unfolding read_scope
body_scope none = none
body_scope (some t) = read_scope t

chosen_of : Option BodyScope → ScopeSelection
chosen_of none = auto
chosen_of (some s) = chosen s

-- `isScopeSelection(value) ? value : "auto"`
unfoldable pub scope_selection : Option String → ScopeSelection
unfolding chosen_of
scope_selection value = chosen_of (body_scope value)

read_source : String → DetectionSource
read_source t =
    if is t "vlm_person"
    then vlm_person
    else (if is t "vlm_description"
        then vlm_description
        else (if is t "legacy_shot"
            then legacy_shot
            else (if is t "observed_legs" then observed_legs else unknown)))

source_of : Option String → DetectionSource
source_of none = unknown
source_of (some t) = read_source t

-- A source counts only with a detection.
unfoldable pub detection_of : Option BodyScope → Option String → DetectionSource
unfolding source_of read_source
detection_of none value = unknown
detection_of (some s) value = source_of value

-- A detected bust keeps its arms: its mesh is the half.
unfoldable pub mesh_of_detected : Option BodyScope → Option BodyScope
mesh_of_detected none = none
mesh_of_detected (some bust) = some half
mesh_of_detected (some full) = some full
mesh_of_detected (some half) = some half
mesh_of_detected (some shoulder_head) = some shoulder_head
mesh_of_detected (some head) = some head

abbrev pub or_else : Option BodyScope → Option BodyScope → Option BodyScope
or_else none b = b
or_else (some a) b = some a

or_full : Option BodyScope → BodyScope
or_full none = full
or_full (some s) = s

unfoldable pub resolved_of : ScopeSelection → Option BodyScope → BodyScope
unfolding or_full
resolved_of auto mesh = or_full mesh
resolved_of (chosen s) mesh = s

unfoldable pub resolution_of : ScopeSelection → Option BodyScope → ResolutionSource
resolution_of (chosen s) detected = by_user
resolution_of auto none = by_fallback
resolution_of auto (some s) = by_detection

-- From the checked fields; the caller's own `resolved` is never read.
unfoldable pub resolve_fields :
    ScopeSelection → Option BodyScope → Option BodyScope → Option String → OutputScope
resolve_fields selection detected mesh source =
    let mesh_scope = or_else mesh (mesh_of_detected detected) in
    record {
      selection = selection;
      detected = detected;
      mesh_scope = mesh_scope;
      detection_source = detection_of detected source;
      resolved = resolved_of selection mesh_scope;
      resolution_source = resolution_of selection detected;
    }

unfoldable pub resolve_output_scope : Option RawScope → OutputScope
resolve_output_scope none = resolve_fields auto none none none
resolve_output_scope (some raw) =
    resolve_fields (scope_selection raw.selection) (body_scope raw.detected)
      (body_scope raw.mesh_scope) raw.detection_source

abbrev pub field : (RawScope → Option String) → Option RawScope → Option String
field f none = none
field f (some raw) = f raw

-- A person's stored scope, with the scope of its presentation where nothing was detected.
unfoldable pub resolve_person_output_scope : Option RawScope → Option String → OutputScope
resolve_person_output_scope raw presentation =
    resolve_fields (scope_selection (field (λ r. r.selection) raw))
      (or_else (body_scope (field (λ r. r.detected) raw)) (body_scope presentation))
      (body_scope (field (λ r. r.mesh_scope) raw)) (field (λ r. r.detection_source) raw)

-- The Converter drops the surfaces of hands for the other scopes.
unfoldable pub scope_includes_hands : BodyScope → Bool
scope_includes_hands full = true
scope_includes_hands half = true
scope_includes_hands bust = false
scope_includes_hands shoulder_head = false
scope_includes_hands head = false

-- The texts under which a scope is stored.
abbrev pub scope_text : BodyScope → String
scope_text full = "full"
scope_text half = "half"
scope_text bust = "bust"
scope_text shoulder_head = "shoulder_head"
scope_text head = "head"

abbrev pub optional_text : Option BodyScope → Option String
optional_text none = none
optional_text (some s) = some (scope_text s)

abbrev pub selection_text : ScopeSelection → String
selection_text auto = "auto"
selection_text (chosen s) = scope_text s

abbrev pub source_text : DetectionSource → String
source_text vlm_person = "vlm_person"
source_text vlm_description = "vlm_description"
source_text legacy_shot = "legacy_shot"
source_text observed_legs = "observed_legs"
source_text unknown = "unknown"

-- The value that is stored of a resolved scope.
abbrev pub stored : OutputScope → RawScope
stored o = record {
  selection = some (selection_text o.selection);
  detected = optional_text o.detected;
  mesh_scope = optional_text o.mesh_scope;
  detection_source = some (source_text o.detection_source);
  resolved = some (scope_text o.resolved);
}
