-- ===== src/Scopes/Tests.antt =====
-- Runs on stored scopes.
use standin_app_server.Prelude.{◌≡◌, refl, String-discrete, Bool-cases, none, some}
use standin_app_server.Scopes.{
  half, RawScope, resolve_output_scope, resolve_fields, body_scope, scope_selection,
  mesh_of_detected, resolved_of,
}

abbrev raw : RawScope
raw = record {
  selection = some "auto";
  detected = some "bust";
  mesh_scope = none;
  detection_source = some "vlm_person";
  resolved = some "head";
}

test_bust : (resolve_output_scope (some raw)).resolved ≡ half
unfolding resolve_output_scope resolve_fields body_scope scope_selection mesh_of_detected
    resolved_of String-discrete Bool-cases
test_bust = refl
