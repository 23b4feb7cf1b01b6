-- ===== src/Jobs/OutputScopes/Written.antt =====
-- What a save answers, and what it leaves of the job.
use standin_app_server.Prelude.{
  ℕ, ◌≡◌, ◌≢◌, refl, true, List, [], ◌∷◌, if◌then◌else◌, ◌==◌, String, Option, none, some, arith,
  Option-cases, inl, inr,
}
use standin_app_server.Scopes.{ScopeSelection, OutputScope}
use standin_app_server.Jobs.Rows.{Person, AnalysisResult, JobRow, find_job, is_some_of}
use standin_app_server.Jobs.Tables.{Tables}
use standin_app_server.Jobs.Lifecycle.{of_installation}
use standin_app_server.Jobs.OutputScopes.{
  scope_of, chosen_scope, set_scope, find_person, set_person, SaveScopeResult, saved, not_found,
  not_ready, person_not_found, set_result_at, store_result, ready_result, write_output_scope,
}
use standin_app_server.Jobs.Rows.Laws.{find_job-update_where}
use standin_app_server.Jobs.OutputScopes.Saved.{saved-selection, saved-resolved}

-- The person of an index is the new one, and no other index is met.
find_person-set :
    (i k : ℕ) (person old : Person) (ps : List Person)
    → person.person_index ≡ i
    → find_person i ps ≡ some old
    → find_person k (set_person i person ps) ≡ (if i == k then some person else find_person k ps)
unfolding find_person set_person
find_person-set i k person old [] own h = cc
find_person-set i k person old (p ∷ ps) own h =
    ground (arith, own, find_person-set i k person old ps own)

find_person-index :
    (i : ℕ) (person : Person) (ps : List Person)
    → find_person i ps ≡ some person
    → person.person_index ≡ i
unfolding find_person
find_person-index i person [] h = cc
find_person-index i person (p ∷ ps) h = ground (arith, find_person-index i person ps)

-- What a save leaves: the job as it was but for its result and its time, in which only the one person
-- has changed, and it reads the scope that is answered; no other job is touched.
pub record IsSaved (id installation : String) (i : ℕ) (selection : ScopeSelection) (now : ℕ)
    (o : OutputScope) (db db' : Tables) (j : JobRow) (result : AnalysisResult) (person : Person)
    : Type 0 where
  pub persons : List Person
  pub person' : Person
  pub changed :
      find_job id db'.jobs ≡ some (set_result_at (record result { persons = persons }) now j)
  pub others : (other : String) → other ≢ id → find_job other db'.jobs ≡ find_job other db.jobs
  pub found :
      (k : ℕ)
      → find_person k persons ≡ (if i == k then some person' else find_person k result.persons)
  pub answered : o ≡ chosen_scope selection person
  pub selection_read : (scope_of person').selection ≡ selection
  pub resolved_read : (scope_of person').resolved ≡ o.resolved

abbrev pub Answers :
    String → String → ℕ → ScopeSelection → ℕ → Tables → Tables × SaveScopeResult → Type 0
Answers id installation i selection now db (db', saved o) =
    (j : JobRow) × (result : AnalysisResult) × (person : Person) × (of_installation installation
        (find_job id db.jobs)
      ≡ some j)
    × (ready_result j.status j.result_json ≡ some result)
    × (find_person i result.persons ≡ some person)
    × IsSaved id installation i selection now o db db' j result person
Answers id installation i selection now db (db', not_found) =
    (of_installation installation (find_job id db.jobs) ≡ none) × (db' ≡ db)
Answers id installation i selection now db (db', not_ready) =
    ((j : JobRow) × (of_installation installation (find_job id db.jobs) ≡ some j)
      × (ready_result j.status j.result_json ≡ none))
    × (db' ≡ db)
Answers id installation i selection now db (db', person_not_found) =
    ((j : JobRow) × (result : AnalysisResult) × (of_installation installation (find_job id db.jobs)
        ≡ some j)
      × (ready_result j.status j.result_json ≡ some result)
      × (find_person i result.persons ≡ none))
    × (db' ≡ db)

owned :
    (installation : String) (o : Option JobRow) (j : JobRow)
    → of_installation installation o ≡ some j
    → (o ≡ some j) × (is_some_of j.installation_id installation ≡ true)
owned installation none j e = cc
owned installation (some k) j e = ground arith

module _ (id installation : String) (i : ℕ) (selection : ScopeSelection) (now : ℕ) (db : Tables)
    (j : JobRow) (result : AnalysisResult) (person : Person) where
  abbrev next : List Person
  next = set_person i (set_scope (chosen_scope selection person) person) result.persons

  store_result-IsSaved :
      of_installation installation (find_job id db.jobs) ≡ some j
      → find_person i result.persons ≡ some person
      → IsSaved id installation i selection now
          (chosen_scope selection person)
          db
          (store_result id installation (record result { persons = next }) now db)
          j
          result
          person
  unfolding store_result set_result_at set_scope
  store_result-IsSaved here found =
      let (stands, mine) = owned installation (find_job id db.jobs) j here in
      record {
        persons = next;
        person' = set_scope (chosen_scope selection person) person;
        changed =
            rw
              (find_job-update_where (set_result_at (record result { persons = next }) now)
                (λ j. refl) id id (λ j. is_some_of j.installation_id installation) db.jobs)
              (ground (arith, stands, mine));
        others = λ other ne.
            rw
              (find_job-update_where (set_result_at (record result { persons = next }) now)
                (λ j. refl) id other (λ j. is_some_of j.installation_id installation) db.jobs)
              (ground (arith, ne));
        found = λ k.
            find_person-set i k _ person result.persons
              (find_person-index i person result.persons found) found;
        answered = refl;
        selection_read = saved-selection selection person;
        resolved_read = saved-resolved selection person;
      }

-- A save answers for every job: one that the installation does not own is not found, one that is not
-- completed with a result is not ready, a person that the result does not have is not found, and then
-- nothing changes; else the scope is answered and saved for the first person of the index, where its
-- selection and its resolved scope are read back, and no other person and no other job is changed.
pub write_output_scope-Answers :
    (id installation : String) (i : ℕ) (selection : ScopeSelection) (now : ℕ) (db : Tables)
    → Answers id installation i selection now db
        (write_output_scope id installation i selection now db)
unfolding write_output_scope
write_output_scope-Answers id installation i selection now db =
    elim (Option-cases (of_installation installation (find_job id db.jobs))) [
      | inl missing ↦ rw missing (missing, refl)
      | inr (j, here) ↦ elim (Option-cases (ready_result j.status j.result_json)) [
        | inl unready ↦ rw (here, unready) ((j, here, unready), refl)
        | inr (result, ready) ↦ elim (Option-cases (find_person i result.persons)) [
          | inl nobody ↦ rw (here, ready, nobody) ((j, result, here, ready, nobody), refl)
          | inr (person, found) ↦
              rw (here, ready, found)
                (
                  j,
                  result,
                  person,
                  here,
                  ready,
                  found,
                  store_result-IsSaved id installation i selection now db j result person here
                      found,
                )
        ]
      ]
    ]
