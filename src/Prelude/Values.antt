-- ===== src/Prelude/Values.antt =====
-- Values of JSON, as the code reads the bodies and answers that it does not trust. The keys of an
-- object are distinct, as JSON.parse leaves them.
use Prim.Native.String.{String}
use mathlib.Core.Bool.{Bool}
use mathlib.Core.List.{List, [], ◌∷◌}
use mathlib.Core.Option.{Option, none, some}
use standin_app_server.Prelude.Tests.{if◌then◌else◌}
use standin_app_server.Prelude.Numbers.{Number}
use standin_app_server.Prelude.Maps.{same}

mutual
  pub data Json : Type 0 where
    null : Json
    boolean : Bool → Json
    number : Number → Json
    text : String → Json
    array : Items → Json
    object : Fields → Json

  pub data Items : Type 0 where
    nil : Items
    cons : Json → Items → Items

  pub data Fields : Type 0 where
    end : Fields
    field : String → Json → Fields → Fields

-- An object's field; `undefined` is none.
abbrev pub field_of : String → Fields → Option Json
field_of k end = none
field_of k (field j v fs) = if same j k then some v else field_of k fs

abbrev pub keys_of : Fields → List String
keys_of end = []
keys_of (field j v fs) = j ∷ keys_of fs

abbrev pub items_of : Items → List Json
items_of nil = []
items_of (cons v vs) = v ∷ items_of vs

-- `typeof v === "string" ? v : undefined`, and the like for the other types.
abbrev pub text_of : Option Json → Option String
text_of (some (text s)) = some s
text_of _ = none

abbrev pub boolean_of : Option Json → Option Bool
boolean_of (some (boolean b)) = some b
boolean_of _ = none

abbrev pub number_of : Option Json → Option Number
number_of (some (number n)) = some n
number_of _ = none

abbrev pub array_of : Option Json → Option (List Json)
array_of (some (array vs)) = some (items_of vs)
array_of _ = none

abbrev pub object_of : Option Json → Option Fields
object_of (some (object fs)) = some fs
object_of _ = none
