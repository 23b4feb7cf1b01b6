-- ===== src/Jobs/Selections.antt =====
-- The selections that a user confirms: PUT /:id/selections of jobs/routes.ts, confirmSelections of
-- analytics/store.ts and listConfirmedSelections of jobs/store.ts. Ids in a body are texts.
pub mod Lookups
pub mod Chosen
pub mod Confirmed
mod Tests
use standin_app_server.Prelude.{
  ℕ, ◌≡◌, Bool, true, false, not, ◌&&◌, ◌||◌, List, [], ◌∷◌, if◌then◌else◌, ite, ltb, ◌==◌, String,
  Option, none, some, Number, not_integer, negative, integer,
}
use standin_app_server.Jobs.Rows.{JobStatus, completed, JobRow, find_job, same}
use standin_app_server.Jobs.Tables.{Tables, CandidateRow, SelectionRow}
use standin_app_server.Jobs.Lifecycle.{delete_where, of_installation, get_owned_job}
use standin_app_server.Jobs.History.Order.{select, sort_desc}

-- An item of the body's array that is an object. A `candidateId` of another type is none.
pub record RawSelection : Type 0 where
  pub person_index : Number
  pub candidate_id : Option String

pub record Selection : Type 0 where
  pub person_index : ℕ
  pub candidate_id : String

pub record Validated : Type 0 where
  pub person_index : ℕ
  pub candidate_id : String
  pub rank : ℕ

unfoldable pub has_person : ℕ → List ℕ → Bool
has_person i [] = false
has_person i (n ∷ ns) = (n == i) || has_person i ns

unfoldable pub non_negative : Number → Option ℕ
non_negative not_integer = none
non_negative (negative n) = none
non_negative (integer n) = some n

unfoldable pub candidate_text : Option String → Option String
candidate_text none = none
candidate_text (some t) = if same t "" then none else some t

unfoldable pub add_first : ℕ → String → Option (List Selection) → Option (List Selection)
add_first i c none = none
add_first i c (some rest) = some (record { person_index = i; candidate_id = c } ∷ rest)

-- The loop over the body: the selections, or none for a 400. `seen` is the set of the persons so far.
unfoldable pub read_items : List (Option RawSelection) → List ℕ → Option (List Selection)
unfolding non_negative candidate_text add_first
read_items [] seen = some []
read_items (none ∷ raws) seen = none
read_items (some raw ∷ raws) seen = elim (non_negative raw.person_index) [
  | none ↦ none
  | some i ↦ elim (candidate_text raw.candidate_id) [
    | none ↦ none
    | some c ↦ if has_person i seen then none else add_first i c (read_items raws (i ∷ seen))
  ]
]

-- SELECT ... WHERE job_id = $1 AND person_index = $2 AND candidate_id = $3
unfoldable pub find_candidate : String → Selection → List CandidateRow → Option CandidateRow
find_candidate id s [] = none
find_candidate id s (c ∷ cs) =
    let rest = find_candidate id s cs in
    if same c.job_id id
      && ((c.person_index == s.person_index) && same c.candidate_id s.candidate_id)
    then some c
    else rest

-- `validated.push(...)` before the rest, or the `return false` of a candidate that is not there.
unfoldable pub push_validated :
    ℕ → Option CandidateRow → Option (List Validated) → Option (List Validated)
push_validated i none rest = none
push_validated i (some c) none = none
push_validated i (some c) (some vs) =
    some (record { person_index = i; candidate_id = c.candidate_id; rank = c.rank } ∷ vs)

unfoldable pub validate : String → List CandidateRow → List Selection → Option (List Validated)
unfolding push_validated
validate id candidates [] = some []
validate id candidates (s ∷ ss) =
    push_validated s.person_index (find_candidate id s candidates) (validate id candidates ss)

abbrev pub persons_of : List Validated → List ℕ
persons_of [] = []
persons_of (v ∷ vs) = v.person_index ∷ persons_of vs

-- The key (job_id, person_index).
unfoldable pub is_of : String → ℕ → SelectionRow → Bool
is_of id i r = same r.job_id id && (r.person_index == i)

-- INSERT ... ON CONFLICT (job_id, person_index) DO UPDATE
unfoldable pub upsert_selection : SelectionRow → List SelectionRow → List SelectionRow
upsert_selection row [] = row ∷ []
upsert_selection row (r ∷ rs) =
    let rest = upsert_selection row rs in
    if is_of row.job_id row.person_index r then row ∷ rs else r ∷ rest

abbrev pub selection_row : String → String → ℕ → Validated → SelectionRow
selection_row installation id now v = record {
  job_id = id;
  person_index = v.person_index;
  installation_id = installation;
  candidate_id = v.candidate_id;
  rank = v.rank;
  confirmed_at = now;
}

unfoldable pub upsert_all :
    String → String → ℕ → List Validated → List SelectionRow → List SelectionRow
upsert_all installation id now [] rows = rows
upsert_all installation id now (v ∷ vs) rows =
    upsert_all installation id now vs (upsert_selection (selection_row installation id now v) rows)

-- NOT (person_index = ANY($2))
unfoldable pub delete_others : String → List ℕ → List SelectionRow → List SelectionRow
delete_others id persons rows =
    delete_where (λ r. same r.job_id id && not (has_person r.person_index persons)) rows

abbrev pub store_validated : String → String → ℕ → Option (List Validated) → Tables → Tables × Bool
store_validated installation id now none db = (db, false)
store_validated installation id now (some vs) db = (
  record db {
    selections = upsert_all installation id now vs (delete_others id (persons_of vs) db.selections);
  },
  true,
)

-- No statement of the transaction throws, and it writes only after the last test.
unfoldable pub confirm_selections : String → String → List Selection → ℕ → Tables → Tables × Bool
confirm_selections installation id selections now db =
    elim (of_installation installation (find_job id db.jobs)) [
      | none ↦ (db, false)
      | some j ↦ store_validated installation id now (validate id db.candidates selections) db
    ]

pub data PutOutcome : Type 0 where
  invalid_input invalid_selection confirmed : PutOutcome

abbrev is_completed : Option JobRow → Bool
is_completed none = false
is_completed (some j) = elim j.status [ completed ↦ true | _ ↦ false ]

abbrev answer : Tables × Bool → Tables × PutOutcome
answer (db, saved) = (db, if saved then confirmed else invalid_selection)

-- `owned_at` is the time of the query of the owner, `now` that of the transaction.
unfoldable pub put_selections :
    String → String → List (Option RawSelection) → ℕ → ℕ → Tables → Tables × PutOutcome
put_selections installation id [] owned_at now db = (db, invalid_input)
put_selections installation id (raw ∷ raws) owned_at now db = elim (read_items (raw ∷ raws) []) [
  | none ↦ (db, invalid_input)
  | some selections ↦
      if is_completed (get_owned_job id installation owned_at db)
      then answer (confirm_selections installation id selections now db)
      else (db, invalid_selection)
]

-- The rows of the job, ORDER BY person_index.
unfoldable pub list_confirmed_selections : String → Tables → List SelectionRow
list_confirmed_selections id db =
    sort_desc (λ a b. ltb b.person_index a.person_index)
      (select (λ r. same r.job_id id) db.selections)
