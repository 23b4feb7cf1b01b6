-- ===== src/Jobs/Queue/Messages.antt =====
-- jobs/queue.ts: the text of a message, and parseQueueMessage. A body is the value that JSON.parse
-- reads, none where it throws.
use standin_app_server.Prelude.{
  ℕ, ◌≡◌, Bool, true, false, ◌&&◌, ◌||◌, [], ◌∷◌, if◌then◌else◌, leb, ◌==◌, ◌-◌, String, Option,
  none, some, Text, codes, Json, Fields, field_of, object_of, text_of, number_of, Number, integer,
  Bool-cases, String-discrete,
}

-- `JSON.stringify({ version: 1, jobId })`
unfoldable pub message_body : String → Json
message_body job_id = Json.object (
    Fields.field "version" (Json.number (integer 1))
      (Fields.field "jobId" (Json.text job_id) Fields.end))

-- A letter of either case.
abbrev is_letter : ℕ → ℕ → Bool
is_letter lower c = (c == lower) || (c == lower - 32)

-- [0-9a-f-] of either case.
is_hex : ℕ → Bool
is_hex c =
    (leb b'0' c && leb c b'9')
    || ((leb b'a' c && leb c b'f') || ((leb b'A' c && leb c b'F') || (c == b'-')))

all_hex : Text → Bool
all_hex [] = true
all_hex (c ∷ cs) = is_hex c && all_hex cs

-- /^job_[0-9a-f-]+$/i
unfoldable pub is_queue_id : Text → Bool
unfolding all_hex is_hex
is_queue_id (j ∷ o ∷ b ∷ u ∷ c ∷ cs) =
    is_letter b'j' j
    && (is_letter b'o' o && (is_letter b'b' b && ((u == b'_') && (is_hex c && all_hex cs))))
is_queue_id t = false

is_first_version : Option Number → Bool
is_first_version (some (integer n)) = n == 1
is_first_version n = false

accept_id : Option String → Option String
accept_id none = none
accept_id (some id) = if is_queue_id (codes id) then some id else none

-- The job id of a message.
unfoldable pub parse_queue_message : Option Json → Option String
unfolding is_first_version accept_id
parse_queue_message body = elim (object_of body) [
  | none ↦ none
  | some fs ↦
      if is_first_version (number_of (field_of "version" fs))
      then accept_id (text_of (field_of "jobId" fs))
      else none
]

-- The message that a dispatch sends is read back as its job, whose id has the server's form.
pub parse-message_body :
    (job_id : String)
    → is_queue_id (codes job_id) ≡ true
    → parse_queue_message (some (message_body job_id)) ≡ some job_id
unfolding parse_queue_message message_body String-discrete Bool-cases
parse-message_body job_id h = rw h
