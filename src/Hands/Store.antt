-- ===== src/Hands/Store.antt =====
-- hands/store.ts: the selection of a person's hands, read or changed in a transaction that locks the
-- job; parseHandChange; and handBakeFor of hands/service.ts. The ready catalog is an argument.
use standin_app_server.Prelude.{
  ℕ, ◌+◌, Bool, true, false, not, ◌||◌, List, [], ◌∷◌, if◌then◌else◌, ◌==◌, String, Option, none,
  some, same, Tried, done, thrown, ◌>>=◌, ◌>>◌, throw_if,
}
use standin_app_server.Scopes.{resolve_person_output_scope, scope_includes_hands}
use standin_app_server.Hands.{
  Side, left, right, HandSelection, HandBake, HandError, not_found, not_ready, hands_not_applicable,
  hand_library_changed, invalid_hand_preset, hands_changed, mem, read_hands,
}
use standin_app_server.Hands.Catalog.{HandCatalog, ids_of}
use standin_app_server.Jobs.Rows.{
  JobStatus, completed, Person, Presentation, AnalysisResult, JobRow, find_job, update_where,
}
use standin_app_server.Jobs.Tables.{Tables, transaction}
use standin_app_server.Jobs.Lifecycle.{of_installation}

pub record HandChange : Type 0 where
  pub left : Option String
  pub right : Option String
  pub library_sha256 : String
  pub expected_revision : ℕ

-- `candidatesByPerson.find(...)`
unfoldable pub find_person : ℕ → List Person → Option Person
find_person i [] = none
find_person i (p ∷ ps) = if p.person_index == i then some p else find_person i ps

-- The assignment to the person that was found.
unfoldable pub set_selection : ℕ → HandSelection → List Person → List Person
set_selection i s [] = []
set_selection i s (p ∷ ps) =
    if p.person_index == i
    then record p { hand_selection = some s } ∷ ps
    else p ∷ set_selection i s ps

pub is_empty : {A : Type 0} → List A → Bool
is_empty [] = true
is_empty (a ∷ rest) = false

pub has_presented : Option Presentation → Bool
has_presented none = false
has_presented (some p) =
    not (is_empty p.library_candidates)
    || (not (is_empty p.review_candidates) || not (is_empty p.generated_candidates))

unfoldable pub is_shown : Person → Bool
unfolding is_empty has_presented
is_shown p = not (is_empty p.candidates) || has_presented p.presentation

abbrev pub presented_scope : Option Presentation → Option String
presented_scope none = none
presented_scope (some p) = p.output_scope

unfoldable pub includes_hands : Person → Bool
includes_hands p =
    scope_includes_hands
      (resolve_person_output_scope p.output_scope (presented_scope p.presentation)).resolved

-- `ids.has(id) ? id : catalog.default_preset`
unfoldable pub valid_preset : HandCatalog → String → String
valid_preset catalog id = if mem id (ids_of catalog.categories) then id else catalog.default_preset

unfoldable pub first_selection : HandCatalog → ℕ → Person → HandSelection
first_selection catalog i p =
    let observation = read_hands p.hands in
    let l = valid_preset catalog observation.left.preset in
    let r = valid_preset catalog observation.right.preset in
    record {
      person_index = i;
      left = l;
      right = r;
      recommended_left = l;
      recommended_right = r;
      observation = observation;
      library_version = catalog.library_version;
      library_sha256 = catalog.library_sha256;
      revision = 0;
      changed = [];
    }

abbrev pub or_selection : Option HandSelection → HandSelection → HandSelection
or_selection none s = s
or_selection (some s) other = s

-- A selection of another library, with what the new one does not have replaced.
unfoldable pub migrate : HandCatalog → HandSelection → HandSelection
migrate catalog s = record s {
  left = valid_preset catalog s.left;
  right = valid_preset catalog s.right;
  recommended_left = valid_preset catalog s.recommended_left;
  recommended_right = valid_preset catalog s.recommended_right;
  library_version = catalog.library_version;
  library_sha256 = catalog.library_sha256;
  revision = s.revision + 1;
}

abbrev pub is_change : Option HandChange → Bool
is_change none = false
is_change (some c) = true

-- A change wants the library of the selection, a read takes the selection over.
unfoldable pub sync : HandCatalog → Bool → HandSelection → Tried HandError HandSelection
sync catalog changes s =
    if same s.library_sha256 catalog.library_sha256
    then done s
    else (if changes then thrown hand_library_changed else done (migrate catalog s))

-- The selection before a change: the stored one or the observed one.
unfoldable pub current_selection : HandCatalog → ℕ → Person → Bool → Tried HandError HandSelection
current_selection catalog i p changes =
    sync catalog changes (or_selection p.hand_selection (first_selection catalog i p))

abbrev pub or_text : Option String → String → String
or_text none t = t
or_text (some t) other = t

abbrev pub is_unknown : List String → Option String → Bool
is_unknown ids none = false
is_unknown ids (some t) = not (mem t ids)

-- The tests of a change that need only the catalog.
unfoldable pub check_change : HandCatalog → Option HandChange → Tried HandError (Unit {0})
check_change catalog none = done tt
check_change catalog (some c) = do
  throw_if (not (same c.library_sha256 catalog.library_sha256)) hand_library_changed
  throw_if
      (is_unknown (ids_of catalog.categories) c.left
        || is_unknown (ids_of catalog.categories) c.right)
      invalid_hand_preset

unfoldable pub apply_change : Option HandChange → HandSelection → Tried HandError HandSelection
apply_change none s = done s
apply_change (some c) s = do
  throw_if (not (c.expected_revision == s.revision)) hands_changed
  let l = or_text c.left s.left
  let r = or_text c.right s.right
  done (record s {
    left = l;
    right = r;
    revision = s.revision + (if not (same l s.left) || not (same r s.right) then 1 else 0);
  })

pub side_if : Bool → Side → List Side → List Side
side_if true s rest = s ∷ rest
side_if false s rest = rest

-- The sides that are not as recommended.
unfoldable pub with_changed : HandSelection → HandSelection
unfolding side_if
with_changed s = record s {
  changed =
      side_if (not (same s.left s.recommended_left)) left
        (side_if (not (same s.right s.recommended_right)) right []);
}

-- From the catalog on: the selection that is stored and returned.
unfoldable pub choose_hands :
    HandCatalog → ℕ → Person → Option HandChange → Tried HandError HandSelection
choose_hands catalog i p change = do
  check_change catalog change
  current ← current_selection catalog i p (is_change change)
  chosen ← apply_change change current
  done (with_changed chosen)

pub is_completed : JobStatus → Bool
is_completed completed = true
is_completed _ = false

-- The result of a job that is completed.
unfoldable pub ready_result : Option JobRow → Tried HandError AnalysisResult
unfolding is_completed
ready_result none = thrown not_found
ready_result (some j) = elim j.result_json [
  | none ↦ thrown not_ready
  | some r ↦ if is_completed j.status then done r else thrown not_ready
]

unfoldable pub shown_person : ℕ → AnalysisResult → Tried HandError Person
shown_person i result = elim (find_person i result.persons) [
  | none ↦ thrown not_found
  | some p ↦ if is_shown p then done p else thrown not_found
]

unfoldable pub store_result : String → AnalysisResult → ℕ → Tables → Tables
store_result id result now db = record db {
  jobs =
      (update_where id (λ j. true) (λ j. record j { result_json = some result; updated_at = now })
        db.jobs).0;
}

-- The body of the transaction of `selection`.
unfoldable pub select_hands :
    Tried HandError HandCatalog
    → String
    → String
    → ℕ
    → Option HandChange
    → ℕ
    → Tables
    → Tried HandError (Tables × HandSelection)
select_hands ready owner id i change now db = do
  result ← ready_result (of_installation owner (find_job id db.jobs))
  p ← shown_person i result
  throw_if (not (includes_hands p)) hands_not_applicable
  catalog ← ready
  chosen ← choose_hands catalog i p change
  done (
    store_result id (record result { persons = set_selection i chosen result.persons }) now db,
    chosen,
  )

unfoldable pub hand_selection :
    Tried HandError HandCatalog
    → String
    → String
    → ℕ
    → Option HandChange
    → ℕ
    → Tables
    → Tables × Tried HandError HandSelection
hand_selection ready owner id i change now db =
    transaction db (select_hands ready owner id i change now)

-- hands/service.ts handBakeFor: what the converter is told, or that the body has no hands or no choice.
unfoldable pub hand_bake_for :
    Option Person → Tried HandError HandCatalog → Tried HandError (Option HandBake)
hand_bake_for none ready = done none
hand_bake_for (some p) ready = if not (includes_hands p) then done none else elim p.hand_selection [
  | none ↦ done none
  | some s ↦ do
    catalog ← ready
    throw_if (not (same s.library_sha256 catalog.library_sha256)) hand_library_changed
    done (
        some (record {
          left = s.left;
          right = s.right;
          library_version = s.library_version;
          library_sha256 = s.library_sha256;
          revision = s.revision;
        }))
]
