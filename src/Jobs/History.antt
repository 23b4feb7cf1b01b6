-- ===== src/Jobs/History.antt =====
-- jobs/history.ts (cursors, the query string, rows and pages) and jobs/store.ts listJobHistory.
pub mod Base64
pub mod Cursors
pub mod Order
pub mod Query
pub mod JobOrder
pub mod Prefixes
pub mod Pages
mod Tests
use standin_app_server.Prelude.{
  Number, not_integer, negative, integer, ℕ, zero, suc, ◌+◌, ◌-◌, ◌*◌, ◌/◌, ◌%◌, ◌≤◌, ◌<◌, ◌≡◌,
  refl, ap, Bool, true, false, not, ◌&&◌, ◌||◌, List, [], ◌∷◌, ◌++◌, map, arith, if◌then◌else◌, ltb,
  leb, ◌==◌, Option, none, some, Text, codes, digit, length, take, drop, ite, String,
  String-discrete, Text-discrete,
}
use standin_app_server.Limits.Calendar.{civil, date_text}
use standin_app_server.Limits.Policy.{day_ms}
use standin_app_server.Jobs.Rows.{
  JobStatus, queued, running, completed, failed, JobSource, JobRow, same, is_none, is_some_of,
}
use standin_app_server.Jobs.Tables.{Tables, PersonRow, CandidateRow, SelectionRow}
use standin_app_server.Jobs.Lifecycle.{ninety_days_ms}
use standin_app_server.Jobs.History.Base64.{to_base64url, from_base64url}

pub record HistoryCursor : Type 0 where
  pub created_at : Text
  pub id : Text

abbrev pub cursor_separator : ℕ
cursor_separator = b'|'

unfoldable pub cursor_text : HistoryCursor → Text
cursor_text cursor = cursor.created_at ++ (cursor_separator ∷ cursor.id)

-- Texts of ASCII characters are their own bytes. Other bytes never pass the tests of `decode_cursor`,
-- whichever characters they make.
unfoldable pub encode_cursor : HistoryCursor → Text
unfolding cursor_text
encode_cursor cursor = to_base64url (cursor_text cursor)

is_digit : ℕ → Bool
is_digit c = leb b'0' c && leb c b'9'

-- The regular expressions as lists of tests, one for each character.
matches : List (ℕ → Bool) → Text → Bool
matches [] [] = true
matches [] (c ∷ cs) = false
matches (t ∷ ts) [] = false
matches (t ∷ ts) (c ∷ cs) = t c && matches ts cs

abbrev is : ℕ → ℕ → Bool
is a c = c == a

abbrev iso_instant : List (ℕ → Bool)
iso_instant =
    is_digit
    ∷ is_digit
    ∷ is_digit
    ∷ is_digit
    ∷ is b'-'
    ∷ is_digit
    ∷ is_digit
    ∷ is b'-'
    ∷ is_digit
    ∷ is_digit
    ∷ is b'T'
    ∷ is_digit
    ∷ is_digit
    ∷ is b':'
    ∷ is_digit
    ∷ is_digit
    ∷ is b':'
    ∷ is_digit
    ∷ is_digit
    ∷ is b'.'
    ∷ is_digit
    ∷ is_digit
    ∷ is_digit
    ∷ is b'Z'
    ∷ []

unfoldable pub is_iso_instant : Text → Bool
unfolding matches is_digit
is_iso_instant t = matches iso_instant t

is_id_char : ℕ → Bool
is_id_char c = is_digit c || ((leb b'a' c && leb c b'f') || (c == b'-'))

-- A number of characters of an id.
id_chars : ℕ → Text → Bool
id_chars zero [] = true
id_chars zero (c ∷ cs) = false
id_chars (suc n) [] = false
id_chars (suc n) (c ∷ cs) = is_id_char c && id_chars n cs

prefixed : Text → Text → Bool
prefixed [] cs = id_chars 36 cs
prefixed (p ∷ ps) [] = false
prefixed (p ∷ ps) (c ∷ cs) = (c == p) && prefixed ps cs

unfoldable pub is_job_id : Text → Bool
unfolding prefixed id_chars is_id_char is_digit
is_job_id t = prefixed (codes "job_") t

unfoldable pub is_installation_id : Text → Bool
unfolding prefixed id_chars is_id_char is_digit
is_installation_id t = prefixed (codes "inst_") t

-- The text before the first separator, and the one after it.
unfoldable pub split_at_separator : Text → Option (Text × Text)
split_at_separator [] = none
split_at_separator (c ∷ cs) =
    if c == cursor_separator
    then some ([], cs)
    else elim (split_at_separator cs) [ none ↦ none | some (a, b) ↦ some (c ∷ a, b) ]

checked : Option (Text × Text) → Option HistoryCursor
checked none = none
checked (some (created_at, id)) =
    if is_iso_instant created_at && is_job_id id
    then some (record { created_at = created_at; id = id })
    else none

unfoldable pub decode_cursor : Text → Option HistoryCursor
unfolding checked
decode_cursor raw =
    if (length raw == 0) || ltb 256 (length raw)
    then none
    else checked (split_at_separator (from_base64url raw))

abbrev pub history_limit_default : ℕ
history_limit_default = 20

abbrev pub history_limit_max : ℕ
history_limit_max = 50

pub record HistoryQuery : Type 0 where
  pub limit : ℕ
  pub cursor : Option HistoryCursor
  pub status : Option JobStatus

pub data ParsedHistoryQuery : Type 0 where
  ok : HistoryQuery → ParsedHistoryQuery
  bad_limit bad_cursor bad_status : ParsedHistoryQuery

parse_limit : Option Number → Option ℕ
parse_limit none = some history_limit_default
parse_limit (some not_integer) = none
parse_limit (some (negative n)) = none
parse_limit (some (integer n)) = if ltb n 1 || ltb history_limit_max n then none else some n

parse_cursor : Option Text → Option (Option HistoryCursor)
parse_cursor none = some none
parse_cursor (some raw) = elim (decode_cursor raw) [ none ↦ none | some c ↦ some (some c) ]

parse_status : Option String → Option (Option JobStatus)
parse_status none = some none
parse_status (some s) =
    if same s "queued"
    then some (some queued)
    else (if same s "running"
        then some (some running)
        else (if same s "completed"
            then some (some completed)
            else (if same s "failed" then some (some failed) else none)))

unfoldable pub parse_history_query :
    Option Number → Option Text → Option String → ParsedHistoryQuery
unfolding parse_limit parse_cursor parse_status
parse_history_query limit cursor status = elim (parse_limit limit) [
  | none ↦ bad_limit
  | some l ↦ elim (parse_cursor cursor) [
    | none ↦ bad_cursor
    | some c ↦ elim (parse_status status) [
      | none ↦ bad_status
      | some s ↦ ok (record { limit = l; cursor = c; status = s })
    ]
  ]
]

-- `toISOString()` of a time, the text of the column created_at.
unfoldable pub utc_iso_string : ℕ → Text
utc_iso_string ms =
    let rest = ms % day_ms in
    date_text (civil (ms / day_ms))
    ++ (b'T'
        ∷ digit (rest / 36000000)
        ∷ digit (rest / 3600000)
        ∷ b':'
        ∷ digit (rest / 60000 % 60 / 10)
        ∷ digit (rest / 60000 % 60)
        ∷ b':'
        ∷ digit (rest / 1000 % 60 / 10)
        ∷ digit (rest / 1000 % 60)
        ∷ b'.'
        ∷ digit (rest % 1000 / 100)
        ∷ digit (rest % 100 / 10)
        ∷ digit rest
        ∷ b'Z'
        ∷ [])

pub record JobHistoryRow : Type 0 where
  pub id : Text
  pub status : JobStatus
  pub created_at : Text
  pub completed_at : Option ℕ
  pub error_code : Option String
  pub source : Option JobSource
  pub input_width : Option ℕ
  pub input_height : Option ℕ
  pub has_input : Bool
  pub person_count : Option ℕ
  pub selection_count : Option ℕ
  pub thumb_pose_id : Option String
  pub thumb_view : Option String

-- `thumbnail_pose` is the pose of the poster that pose-thumbnail.ts `humanThumbnailUrl` names.
pub record JobHistoryItem : Type 0 where
  pub job_id : Text
  pub status : JobStatus
  pub created_at : Text
  pub completed_at : Option ℕ
  pub error_code : Option String
  pub source : Option JobSource
  pub person_count : ℕ
  pub selection_count : ℕ
  pub has_selection : Bool
  pub thumbnail_pose : Option String
  pub input_available : Bool
  pub input_width : Option ℕ
  pub input_height : Option ℕ

or_none : Option ℕ → ℕ
or_none none = 0
or_none (some n) = n

named : Option String → Option String
named none = none
named (some p) = if same p "" then none else some p

unfoldable pub to_history_item : JobHistoryRow → JobHistoryItem
unfolding or_none named
to_history_item row = record {
  job_id = row.id;
  status = row.status;
  created_at = row.created_at;
  completed_at = row.completed_at;
  error_code = row.error_code;
  source = row.source;
  person_count = or_none row.person_count;
  selection_count = or_none row.selection_count;
  has_selection = ltb 0 (or_none row.selection_count);
  thumbnail_pose = named row.thumb_pose_id;
  input_available = row.has_input;
  input_width = row.input_width;
  input_height = row.input_height;
}

-- The last of the rows, if there is one.
unfoldable pub last {ℓ} : {A : Type ℓ} → List A → Option A
last [] = none
last (a ∷ rest) = elim (last rest) [ none ↦ some a | some b ↦ some b ]

next_cursor : Bool → Option JobHistoryRow → Option Text
next_cursor more none = none
next_cursor more (some row) =
    if more
    then some (encode_cursor (record { created_at = row.created_at; id = row.id }))
    else none

unfoldable pub to_history_page : List JobHistoryRow → ℕ → List JobHistoryItem × Option Text
unfolding next_cursor
to_history_page rows limit =
    let page = take limit rows in
    (map to_history_item page, next_cursor (ltb limit (length rows)) (last page))
