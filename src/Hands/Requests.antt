-- ===== src/Hands/Requests.antt =====
-- hands/store.ts parseHandChange: the change that a request asks for.
use standin_app_server.Prelude.{
  ℕ, Bool, true, false, not, ◌&&◌, ◌||◌, List, [], ◌∷◌, if◌then◌else◌, leb, String, Option, none,
  some, Number, not_integer, negative, integer, Json, keys_of, field_of, text_of, number_of, Tried,
  done, thrown, ◌>>=◌, ◌>>◌, throw_if,
}
use standin_app_server.Hands.{HandError, invalid_input, is_sha, record_of, mem}
use standin_app_server.Hands.Store.{HandChange}

abbrev pub safe_integer : ℕ
safe_integer = 9007199254740991

unfoldable pub revision_of : Option Number → Option ℕ
revision_of (some (integer n)) = if leb n safe_integer then some n else none
revision_of (some (negative n)) = none
revision_of (some not_integer) = none
revision_of none = none

pub all_known : List String → List String → Bool
all_known known [] = true
all_known known (k ∷ ks) = mem k known && all_known known ks

-- A side that is there has to be a text.
abbrev pub is_mistyped : Option Json → Bool
is_mistyped none = false
is_mistyped (some v) = elim (text_of (some v)) [ none ↦ true | some t ↦ false ]

abbrev pub is_given : Option Json → Bool
is_given none = false
is_given (some v) = true

abbrev pub need : {A : Type 0} → Option A → Tried HandError A
need none = thrown invalid_input
need (some a) = done a

unfoldable pub parse_hand_change : Option Json → Tried HandError HandChange
unfolding all_known
parse_hand_change raw = do
  let v = record_of raw
  throw_if
      (not (all_known ("left" ∷ "right" ∷ "library_sha256" ∷ "expectedRevision" ∷ []) (keys_of v)))
      invalid_input
  throw_if (not (is_given (field_of "left" v) || is_given (field_of "right" v))) invalid_input
  throw_if (is_mistyped (field_of "left" v) || is_mistyped (field_of "right" v)) invalid_input
  sha ← need (text_of (field_of "library_sha256" v))
  throw_if (not (is_sha sha)) invalid_input
  revision ← need (revision_of (number_of (field_of "expectedRevision" v)))
  done (record {
    left = text_of (field_of "left" v);
    right = text_of (field_of "right" v);
    library_sha256 = sha;
    expected_revision = revision;
  })
