-- ===== src/Jobs/OutputScopes/Saved.antt =====
-- What is read of a scope that was saved.
use standin_app_server.Prelude.{◌≡◌, refl, Option, none, some}
use standin_app_server.Scopes.{
  BodyScope, full, half, bust, shoulder_head, head, ScopeSelection, auto, chosen, OutputScope,
  source_text, body_scope, or_else, mesh_of_detected, resolved_of, resolve_fields,
  resolve_output_scope, resolve_person_output_scope,
}
use standin_app_server.Scopes.Resolution.{or_else-same, body_scope-text, selection-text}
use standin_app_server.Jobs.Rows.{Presentation, Person}
use standin_app_server.Jobs.OutputScopes.{presented, scope_of, chosen_scope, present, set_scope}

chosen_scope-fields :
    (selection : ScopeSelection) (person : Person)
    → chosen_scope selection person
      ≡ resolve_fields selection
          (scope_of person).detected
          (scope_of person).mesh_scope
          (some (source_text (scope_of person).detection_source))
unfolding chosen_scope resolve_output_scope
chosen_scope-fields selection person = rw (
  selection-text selection,
  body_scope-text (scope_of person).detected,
  body_scope-text (scope_of person).mesh_scope,
)

-- The scope that a presentation shows, after a save.
abbrev shown : BodyScope → Option Presentation → Option BodyScope
shown s none = none
shown s (some p) = some s

shown-present :
    (o : OutputScope) (p : Option Presentation)
    → body_scope (presented (present o p)) ≡ shown o.resolved p
unfolding present body_scope
shown-present o none = refl
shown-present o (some p) = body_scope-text (some o.resolved)

scope_of-set_scope :
    (o : OutputScope) (person : Person)
    → scope_of (set_scope o person)
      ≡ resolve_fields o.selection
          (or_else o.detected (shown o.resolved person.presentation))
          o.mesh_scope
          (some (source_text o.detection_source))
unfolding set_scope resolve_person_output_scope
scope_of-set_scope o person = rw (
  selection-text o.selection,
  body_scope-text o.detected,
  body_scope-text o.mesh_scope,
  shown-present o person.presentation,
)

-- The mesh that the automatic scope is taken from.
abbrev mesh_of : Option BodyScope → Option BodyScope → Option BodyScope
mesh_of mesh detected = or_else mesh (mesh_of_detected detected)

-- A resolved scope that is read as a detection resolves to the same.
resolved-shown :
    (selection : ScopeSelection) (detected mesh : Option BodyScope) (p : Option Presentation)
    → resolved_of selection (
        mesh_of
          (mesh_of mesh detected)
          (or_else detected (shown (resolved_of selection (mesh_of mesh detected)) p)))
      ≡ resolved_of selection (mesh_of mesh detected)
unfolding resolved_of mesh_of_detected
resolved-shown (chosen s) detected mesh p = refl
resolved-shown auto detected (some m) p = refl
resolved-shown auto none none none = refl
resolved-shown auto none none (some p) = refl
resolved-shown auto (some full) none p = refl
resolved-shown auto (some half) none p = refl
resolved-shown auto (some bust) none p = refl
resolved-shown auto (some shoulder_head) none p = refl
resolved-shown auto (some head) none p = refl

-- The scope of a save as its fields make it.
module _ (selection : ScopeSelection) (person : Person) where
  saved_scope-selection : (chosen_scope selection person).selection ≡ selection
  unfolding resolve_fields
  saved_scope-selection = rw (chosen_scope-fields selection person)

  pub saved-selection :
      (scope_of (set_scope (chosen_scope selection person) person)).selection ≡ selection
  unfolding resolve_fields
  saved-selection =
      rw (scope_of-set_scope (chosen_scope selection person) person) saved_scope-selection

  pub saved-resolved :
      (scope_of (set_scope (chosen_scope selection person) person)).resolved
      ≡ (chosen_scope selection person).resolved
  unfolding resolve_fields
  saved-resolved =
      rw
        (
          scope_of-set_scope (chosen_scope selection person) person,
          chosen_scope-fields selection person,
        )
        (resolved-shown selection (scope_of person).detected (scope_of person).mesh_scope
          person.presentation)

-- The automatic scope after a choice was saved, from the automatic scope before.
abbrev pub automatic_after :
    BodyScope → BodyScope → Option BodyScope → Option Presentation → BodyScope
automatic_after before s mesh none = before
automatic_after before s (some m) (some p) = before
automatic_after before s none (some p) = resolved_of auto (mesh_of_detected (some s))

mesh_of-scope_of :
    (person : Person)
    → mesh_of (scope_of person).mesh_scope (scope_of person).detected ≡ (scope_of person).mesh_scope
unfolding resolve_person_output_scope resolve_fields
mesh_of-scope_of person = rw or_else-same

undetected : (d : Option BodyScope) → mesh_of_detected d ≡ none → d ≡ none
unfolding mesh_of_detected
undetected none h = refl
undetected (some full) h = cc
undetected (some half) h = cc
undetected (some bust) h = cc
undetected (some shoulder_head) h = cc
undetected (some head) h = cc

resolved-automatic :
    (s : BodyScope) (d m : Option BodyScope) (p : Option Presentation)
    → mesh_of m d ≡ m
    → resolved_of auto (mesh_of (mesh_of m (or_else d (shown s p))) (or_else d (shown s p)))
      ≡ automatic_after (resolved_of auto m) s m p
unfolding resolved_of mesh_of_detected
resolved-automatic s d (some m) none h = refl
resolved-automatic s d (some m) (some p) h = refl
resolved-automatic s d none none h = rw (undetected d h)
resolved-automatic full d none (some p) h = rw (undetected d h)
resolved-automatic half d none (some p) h = rw (undetected d h)
resolved-automatic bust d none (some p) h = rw (undetected d h)
resolved-automatic shoulder_head d none (some p) h = rw (undetected d h)
resolved-automatic head d none (some p) h = rw (undetected d h)

-- Saving the automatic selection after a choice gives the automatic scope from before the choice, where
-- the person has no presentation or its mesh is known; a person with a presentation whose mesh is not
-- known keeps the scope that was chosen, cut as a detection of it is, in place of the full body.
pub chosen_scope-set_scope :
    (s : BodyScope) (person : Person)
    → (chosen_scope auto (set_scope (chosen_scope (chosen s) person) person)).resolved
      ≡ automatic_after
          (chosen_scope auto person).resolved
          s
          (scope_of person).mesh_scope
          person.presentation
unfolding resolve_fields resolved_of
chosen_scope-set_scope s person =
    let same_mesh = mesh_of-scope_of person in
    rw
      (
        chosen_scope-fields auto (set_scope (chosen_scope (chosen s) person) person),
        scope_of-set_scope (chosen_scope (chosen s) person) person,
        chosen_scope-fields (chosen s) person,
        chosen_scope-fields auto person,
        same_mesh,
      )
      (resolved-automatic s (scope_of person).detected (scope_of person).mesh_scope
        person.presentation same_mesh)
