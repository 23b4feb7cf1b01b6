-- ===== src/Jobs/History/Query.antt =====
-- jobs/store.ts listJobHistory over the table of jobs. The database's order of texts (its collation)
-- is a parameter. The times of the clients' columns are numbers; `created_at` is read as its text.
use standin_app_server.Prelude.{
  ℕ, ◌+◌, ◌≡◌, ◌⊎◌, Bool, true, false, not, ◌&&◌, ◌||◌, List, [], ◌∷◌, map, if◌then◌else◌, ltb,
  ◌==◌, Option, none, some, Text, codes, Text-discrete, ite, take, length, String,
}
use standin_app_server.Jobs.Rows.{JobStatus, JobRow, same, is_none, is_some_of}
use standin_app_server.Jobs.Tables.{Tables, CandidateRow, SelectionRow}
use standin_app_server.Jobs.Lifecycle.{ninety_days_ms}
use standin_app_server.Jobs.History.{HistoryCursor, HistoryQuery, JobHistoryRow, utc_iso_string}
use standin_app_server.Jobs.History.Order.{select, sort_desc}

-- A strict total order on texts, as every deterministic collation is.
pub record Collation : Type 0 where
  pub lt : Text → Text → Bool
  pub irrefl : (a : Text) → lt a a ≡ false
  pub trans : (a b c : Text) → lt a b ≡ true → lt b c ≡ true → lt a c ≡ true
  pub total : (a b : Text) → (lt a b ≡ true) ⊎ ((a ≡ b) ⊎ (lt b a ≡ true))

abbrev pub job_key : JobRow → HistoryCursor
job_key j = record { created_at = utc_iso_string j.created_at; id = codes j.id }

-- A row comparison: (created_at, id) < ($3, $4).
unfoldable pub key_lt : Collation → HistoryCursor → HistoryCursor → Bool
key_lt order a b =
    order.lt a.created_at b.created_at
    || ite (Text-discrete a.created_at b.created_at) (order.lt a.id b.id) false

unfoldable pub job_lt : Collation → JobRow → JobRow → Bool
job_lt order a b = key_lt order (job_key a) (job_key b)

unfoldable JobStatus-discrete : Discrete JobStatus
JobStatus-discrete = hlevel

has_status : Option JobStatus → JobStatus → Bool
has_status none s = true
has_status (some wanted) s = ite (JobStatus-discrete s wanted) true false

unfoldable pub after_cursor : Collation → Option HistoryCursor → JobRow → Bool
after_cursor order none j = true
after_cursor order (some c) j = key_lt order (job_key j) c

-- Which jobs a list shows: an installation's own of the last 90 days; those of the view
-- quality_review_jobs, of an installation or of all. What the view holds is Consents.Review's.
pub data Listing : Type 0 where
  own : (installation : String) (now : ℕ) → Listing
  reviewed : (in_view : JobRow → Bool) (installation : String) → Listing
  recent : (in_view : JobRow → Bool) → Listing

unfoldable pub listed : Listing → JobRow → Bool
listed (own installation now) j =
    is_some_of j.installation_id installation && ltb now (j.created_at + ninety_days_ms)
listed (reviewed in_view installation) j = in_view j && is_some_of j.installation_id installation
listed (recent in_view) j = in_view j && not (is_none j.installation_id)

-- And of the status that is asked for.
unfoldable pub shown : Listing → Option JobStatus → JobRow → Bool
unfolding has_status JobStatus-discrete
shown listing status j = listed listing j && has_status status j.status

unfoldable pub count_where {ℓ} : {A : Type ℓ} → (A → Bool) → List A → ℕ
count_where test rows = length (select test rows)

is_selected : List SelectionRow → CandidateRow → Bool
is_selected [] c = false
is_selected (s ∷ ss) c =
    (same s.job_id c.job_id
      && ((s.person_index == c.person_index) && same s.candidate_id c.candidate_id))
    || is_selected ss c

bit : Bool → ℕ
bit true = 0
bit false = 1

-- ORDER BY (cs.candidate_id IS NULL), ac.person_index, ac.rank
candidate_lt : List SelectionRow → CandidateRow → CandidateRow → Bool
candidate_lt ss a b =
    let x = bit (is_selected ss a) in
    let y = bit (is_selected ss b) in
    ltb x y
    || ((x == y)
        && (ltb a.person_index b.person_index
            || ((a.person_index == b.person_index) && ltb a.rank b.rank)))

pick : List SelectionRow → CandidateRow → Option CandidateRow → Option CandidateRow
pick ss a none = some a
pick ss a (some b) = if candidate_lt ss b a then some b else some a

-- LIMIT 1; of equals, the one that comes first in the table.
first_candidate : List SelectionRow → List CandidateRow → Option CandidateRow
first_candidate ss [] = none
first_candidate ss (c ∷ cs) = pick ss c (first_candidate ss cs)

abbrev column : {A B : Type 0} → (A → B) → Option A → Option B
column f none = none
column f (some a) = some (f a)

abbrev flat : {A B : Type 0} → (A → Option B) → Option A → Option B
flat f none = none
flat f (some a) = f a

unfoldable pub thumbnail : Tables → JobRow → Option CandidateRow
unfolding first_candidate pick candidate_lt bit is_selected
thumbnail db j = first_candidate db.selections (select (λ c. same c.job_id j.id) db.candidates)

unfoldable pub history_row : Tables → JobRow → JobHistoryRow
history_row db j = record {
  id = codes j.id;
  status = j.status;
  created_at = utc_iso_string j.created_at;
  completed_at = j.completed_at;
  error_code = j.error_code;
  source = j.source;
  input_width = j.input_width;
  input_height = j.input_height;
  has_input = not (is_none j.input_s3_key);
  person_count = some (count_where (λ p. same p.job_id j.id) db.people);
  selection_count = some (count_where (λ s. same s.job_id j.id) db.selections);
  thumb_pose_id = flat (λ c. c.pose_id) (thumbnail db j);
  thumb_view = column (λ c. c.view) (thumbnail db j);
}

-- The jobs that a query names, in its order, before the limit.
unfoldable pub query_jobs :
    Collation → Listing → Option HistoryCursor → Option JobStatus → List JobRow → List JobRow
unfolding after_cursor
query_jobs order listing cursor status jobs =
    select (λ j. shown listing status j && after_cursor order cursor j)
      (sort_desc (job_lt order) jobs)

-- `reviewOnly ? "quality_review_jobs" : "jobs"`, and the days of the own list.
abbrev pub history_listing : String → ℕ → Option (JobRow → Bool) → Listing
history_listing installation now none = own installation now
history_listing installation now (some in_view) = reviewed in_view installation

unfoldable pub list_job_history :
    Collation → String → ℕ → Option (JobRow → Bool) → HistoryQuery → Tables → List JobHistoryRow
list_job_history order installation now review_only q db = map (history_row db) (
    take (q.limit + 1)
      (query_jobs order (history_listing installation now review_only) q.cursor q.status db.jobs))

-- The rows, each with the column installation_id.
unfoldable pub list_recent_jobs :
    Collation → (JobRow → Bool) → HistoryQuery → Tables → List (JobHistoryRow × Option String)
list_recent_jobs order in_view q db =
    map (λ j. (history_row db j, j.installation_id))
      (take (q.limit + 1) (query_jobs order (recent in_view) q.cursor q.status db.jobs))
