-- ===== src/Jobs/OutputScopes.antt =====
-- output-scope/store.ts: saving the part of a body that a person's output shows, in the result of a job.
pub mod Saved
pub mod Written
mod Tests
use standin_app_server.Prelude.{
  ℕ, Bool, true, false, List, [], ◌∷◌, if◌then◌else◌, ◌==◌, String, Option, none, some,
}
use standin_app_server.Scopes.{
  ScopeSelection, OutputScope, stored, selection_text, scope_text, resolve_output_scope,
  resolve_person_output_scope,
}
use standin_app_server.Jobs.Rows.{
  JobStatus, completed, Presentation, Person, AnalysisResult, JobRow, find_job, update_where,
  is_some_of,
}
use standin_app_server.Jobs.Tables.{Tables, Tried, done, transaction}
use standin_app_server.Jobs.Lifecycle.{of_installation}

pub data SaveScopeResult : Type 0 where
  saved : OutputScope → SaveScopeResult
  not_found not_ready person_not_found : SaveScopeResult

abbrev pub presented : Option Presentation → Option String
presented none = none
presented (some p) = p.output_scope

-- resolvePersonOutputScope of a person of a result.
abbrev pub scope_of : Person → OutputScope
scope_of person = resolve_person_output_scope person.output_scope (presented person.presentation)

-- `resolveOutputScope({ ...resolvePersonOutputScope(person), selection })`
unfoldable pub chosen_scope : ScopeSelection → Person → OutputScope
chosen_scope selection person =
    resolve_output_scope
      (some (record (stored (scope_of person)) { selection = some (selection_text selection) }))

-- The presentation of a person, where there is one, shows the resolved scope.
unfoldable pub present : OutputScope → Option Presentation → Option Presentation
present o none = none
present o (some p) = some (record p { output_scope = some (scope_text o.resolved) })

unfoldable pub set_scope : OutputScope → Person → Person
set_scope o person = record person {
  output_scope = some (stored o);
  presentation = present o person.presentation;
}

-- `result.candidatesByPerson.find((p) => p.personIndex === personIndex)`
unfoldable pub find_person : ℕ → List Person → Option Person
find_person i [] = none
find_person i (p ∷ ps) = let rest = find_person i ps in if p.person_index == i then some p else rest

-- The object that `find` gave is changed in its place.
unfoldable pub set_person : ℕ → Person → List Person → List Person
set_person i person [] = []
set_person i person (p ∷ ps) =
    let rest = set_person i person ps in if p.person_index == i then person ∷ ps else p ∷ rest

unfoldable pub set_result_at : AnalysisResult → ℕ → JobRow → JobRow
set_result_at result now j = record j { result_json = some result; updated_at = now }

-- UPDATE jobs SET result_json, updated_at WHERE id = $1 AND installation_id = $2
unfoldable pub store_result : String → String → AnalysisResult → ℕ → Tables → Tables
store_result id installation result now db = record db {
  jobs =
      (update_where id (λ j. is_some_of j.installation_id installation) (set_result_at result now)
        db.jobs).0;
}

write_person :
    String
    → String
    → ℕ
    → ScopeSelection
    → ℕ
    → AnalysisResult
    → Option Person
    → Tables
    → Tables × SaveScopeResult
write_person id installation i selection now result none db = (db, person_not_found)
write_person id installation i selection now result (some person) db =
    let o = chosen_scope selection person in
    (
      store_result id installation
          (record result { persons = set_person i (set_scope o person) result.persons }) now db,
      saved o,
    )

-- `row.status !== "completed" || !row.result_json`
unfoldable pub ready_result : JobStatus → Option AnalysisResult → Option AnalysisResult
ready_result completed result = result
ready_result _ result = none

write_ready :
    String
    → String
    → ℕ
    → ScopeSelection
    → ℕ
    → Option AnalysisResult
    → Tables
    → Tables × SaveScopeResult
unfolding write_person
write_ready id installation i selection now none db = (db, not_ready)
write_ready id installation i selection now (some result) db =
    write_person id installation i selection now result (find_person i result.persons) db

write_row :
    String → String → ℕ → ScopeSelection → ℕ → Option JobRow → Tables → Tables × SaveScopeResult
unfolding write_ready
write_row id installation i selection now none db = (db, not_found)
write_row id installation i selection now (some j) db =
    write_ready id installation i selection now (ready_result j.status j.result_json) db

unfoldable pub write_output_scope :
    String → String → ℕ → ScopeSelection → ℕ → Tables → Tables × SaveScopeResult
unfolding write_row
write_output_scope id installation i selection now db =
    write_row id installation i selection now (of_installation installation (find_job id db.jobs))
      db

-- No statement of it throws in the model.
unfoldable pub save_output_scope :
    {E : Type 0}
    → String
    → String
    → ℕ
    → ScopeSelection
    → ℕ
    → Tables
    → Tables × Tried E SaveScopeResult
save_output_scope id installation i selection now db =
    transaction db (λ db. done (write_output_scope id installation i selection now db))
