-- ===== src/Jobs/Selections/Tests.antt =====
-- The selections of a job with two people.
use standin_app_server.Prelude.{
  ℕ, ◌≡◌, refl, true, List, [], ◌∷◌, String, String-discrete, Bool-cases, none, some, integer,
}
use standin_app_server.Jobs.Rows.{find_job}
use standin_app_server.Jobs.Tables.{Tables, CandidateRow}
use standin_app_server.Jobs.Lifecycle.{get_owned_job}
use standin_app_server.Jobs.Samples.{one_ended, stored_job, tuesday}
use standin_app_server.Jobs.Create.{new_job, initial_status, source_status}
use standin_app_server.Jobs.Selections.{
  Selection, confirm_selections, validate, push_validated, find_candidate, put_selections,
  confirmed, read_items, non_negative, candidate_text, has_person, add_first,
}
use standin_app_server.Jobs.Selections.Confirmed.{Replaces, confirm_selections-Replaces}

abbrev candidate : ℕ → String → ℕ → CandidateRow
candidate i name rank = record {
  job_id = "job_1";
  person_index = i;
  candidate_id = name;
  pose_id = none;
  rank = rank;
  view = "front";
  columns = "";
}

-- The second person was confirmed before.
abbrev exposed : Tables
exposed = record one_ended {
  candidates = candidate 0 "a" 1 ∷ candidate 0 "b" 2 ∷ candidate 1 "a" 1 ∷ [];
  selections =
      record {
        job_id = "job_1";
        person_index = 1;
        installation_id = "inst_1";
        candidate_id = "a";
        rank = 1;
        confirmed_at = tuesday;
      }
      ∷ [];
}

abbrev chosen : List Selection
chosen = record { person_index = 0; candidate_id = "b" } ∷ []

saves : (confirm_selections "inst_1" "job_1" chosen tuesday exposed).1 ≡ true
unfolding confirm_selections find_job stored_job new_job initial_status source_status validate
    push_validated find_candidate String-discrete Bool-cases
saves = refl

confirm_selections-Replaces_example :
    Replaces "inst_1" "job_1" chosen tuesday exposed.candidates exposed.selections
      (confirm_selections "inst_1" "job_1" chosen tuesday exposed).0.selections
confirm_selections-Replaces_example =
    confirm_selections-Replaces "inst_1" "job_1" chosen tuesday exposed saves

-- A person that comes twice is refused.
twice :
    read_items
      (some (record { person_index = integer 0; candidate_id = some "b" })
        ∷ some (record { person_index = integer 0; candidate_id = some "a" })
        ∷ [])
      []
    ≡ none
unfolding read_items non_negative candidate_text has_person add_first String-discrete Bool-cases
twice = refl

-- The second person is not in the body and loses its row.
put :
    put_selections "inst_1" "job_1"
      (some (record { person_index = integer 0; candidate_id = some "b" }) ∷ [])
      tuesday
      tuesday
      exposed
    ≡ ((confirm_selections "inst_1" "job_1" chosen tuesday exposed).0, confirmed)
unfolding put_selections read_items non_negative candidate_text has_person add_first String-discrete
    Bool-cases get_owned_job confirm_selections find_job stored_job new_job initial_status
    source_status validate push_validated find_candidate
put = refl
