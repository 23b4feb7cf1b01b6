-- ===== src/Jobs/OutputScopes/Tests.antt =====
-- Saves of a scope for a person of whom nothing was detected.
use standin_app_server.Prelude.{ℕ, ◌+◌, ◌≡◌, refl, [], ◌∷◌, none, some, String-discrete, Bool-cases}
use standin_app_server.Scopes.{
  full, half, bust, auto, chosen, body_scope, scope_selection, mesh_of_detected, resolved_of,
  resolve_fields, resolve_output_scope, resolve_person_output_scope, detection_of,
}
use standin_app_server.Jobs.Rows.{Person, Presentation}
use standin_app_server.Jobs.Tables.{Tables}
use standin_app_server.Jobs.Samples.{result, ended_job, empty_tables, tuesday}
use standin_app_server.Jobs.OutputScopes.{
  scope_of, chosen_scope, present, set_scope, write_output_scope,
}
use standin_app_server.Jobs.OutputScopes.Saved.{automatic_after, chosen_scope-set_scope}
use standin_app_server.Jobs.OutputScopes.Written.{Answers, write_output_scope-Answers}

abbrev presentation : Presentation
presentation = record {
  version = "1";
  output_scope = none;
  library_candidates = [];
  review_candidates = [];
  generated_candidates = [];
}

abbrev person : ℕ → Person
person i = record {
  person_index = i;
  columns = "";
  candidates = [];
  hands = none;
  hand_selection = none;
  output_scope = none;
  presentation = some presentation;
}

abbrev scoped : Tables
scoped = record empty_tables {
  jobs =
      record ended_job { result_json = some (record result { persons = person 0 ∷ person 1 ∷ [] }) }
      ∷ [];
}

-- A person who chose a bust and went back to the automatic scope is shown as a half, not in full.
returned : (chosen_scope auto (person 0)).resolved ≡ full
unfolding chosen_scope resolve_output_scope resolve_person_output_scope resolve_fields body_scope
    scope_selection mesh_of_detected resolved_of String-discrete Bool-cases detection_of
returned = refl

stuck :
    (chosen_scope auto (set_scope (chosen_scope (chosen bust) (person 0)) (person 0))).resolved
    ≡ half
unfolding chosen_scope set_scope present resolve_output_scope resolve_person_output_scope
    resolve_fields body_scope scope_selection mesh_of_detected resolved_of String-discrete
    Bool-cases detection_of
stuck = refl

chosen_scope-set_scope_example :
    (chosen_scope auto (set_scope (chosen_scope (chosen bust) (person 0)) (person 0))).resolved
    ≡ automatic_after
        (chosen_scope auto (person 0)).resolved
        bust
        (scope_of (person 0)).mesh_scope
        (some presentation)
chosen_scope-set_scope_example = chosen_scope-set_scope bust (person 0)

write_output_scope-Answers_example :
    Answers "job_1" "inst_1" 1
      (chosen bust)
      (tuesday + 60000)
      scoped
      (write_output_scope "job_1" "inst_1" 1 (chosen bust) (tuesday + 60000) scoped)
write_output_scope-Answers_example =
    write_output_scope-Answers "job_1" "inst_1" 1 (chosen bust) (tuesday + 60000) scoped
