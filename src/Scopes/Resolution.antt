-- ===== src/Scopes/Resolution.antt =====
-- A resolved scope is stable, and a bust that was only detected keeps the hands.
use standin_app_server.Prelude.{◌≡◌, refl, ap, Option, none, some, String-discrete, Bool-cases}
use standin_app_server.Scopes.{
  BodyScope, full, half, bust, shoulder_head, head, ScopeSelection, auto, chosen, body_scope,
  scope_selection, or_else, chosen_of, read_scope, scope_text, optional_text, selection_text,
}

read-scope_text : (s : BodyScope) → read_scope (scope_text s) ≡ some s
unfolding read_scope String-discrete Bool-cases
read-scope_text full = refl
read-scope_text half = refl
read-scope_text bust = refl
read-scope_text shoulder_head = refl
read-scope_text head = refl

pub body_scope-text : (o : Option BodyScope) → body_scope (optional_text o) ≡ o
unfolding body_scope
body_scope-text none = refl
body_scope-text (some s) = read-scope_text s

pub selection-text : (s : ScopeSelection) → scope_selection (some (selection_text s)) ≡ s
unfolding scope_selection body_scope String-discrete Bool-cases read_scope
selection-text auto = refl
selection-text (chosen s) = ap chosen_of (read-scope_text s)

pub or_else-same : (a b : Option BodyScope) → or_else (or_else a b) b ≡ or_else a b
or_else-same none none = refl
or_else-same none (some d) = refl
or_else-same (some m) b = refl
