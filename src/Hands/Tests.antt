-- ===== src/Hands/Tests.antt =====
-- A library of two shapes, and the hands of a completed job.
use standin_app_server.Prelude.{
  List, length, All, ◌+◌, ◌≡◌, refl, true, false, [], ◌∷◌, String, String-discrete, none, some,
  Bool-cases, integer, Json, number, text, array, object, nil, cons, end, field, Tried, done,
  thrown,
}
use standin_app_server.Scopes.{
  resolve_person_output_scope, scope_includes_hands, resolve_fields, resolved_of, scope_selection,
  body_scope, mesh_of_detected,
}
use standin_app_server.Hands.{
  HandSelection, HandError, is_preset, is_sha, record_of, mem, read_hands, choice,
}
use standin_app_server.Hands.Catalog.{
  HandCatalog, is_one, is_true, parse_preset, parse_presets, parse_category, parse_categories,
  thumbnails_of, known_texts, order_of, parse_catalog,
}
use standin_app_server.Hands.Library.{IsLibrary, parse_catalog-IsLibrary}
use standin_app_server.Hands.Store.{
  HandChange, find_person, is_shown, includes_hands, valid_preset, first_selection, sync,
  current_selection, check_change, apply_change, with_changed, choose_hands, ready_result,
  shown_person, select_hands, hand_selection,
}
use standin_app_server.Hands.Service.{Times, answered, failed, Caches, ready_hand_catalog}
use standin_app_server.Hands.Service.{fresh_catalog, keep_for}
use standin_app_server.Hands.Flights.{
  Event, asked, checked, join_check, ask, end_check, hand_selection_available,
}
use standin_app_server.Hands.Flights.Shared.{
  step, run, start, calls, waiting, IsCurrent, run-answers,
}
use standin_app_server.Hands.Ready.{
  CachesAreLibraries, ResultIsLibrary, ready_hand_catalog-IsLibrary,
}
use standin_app_server.Hands.Revisions.{hand_selection-refuses}
use standin_app_server.Jobs.Rows.{completed, Person, AnalysisResult, find_job}
use standin_app_server.Jobs.Tables.{Tables, transaction}
use standin_app_server.Jobs.Create.{new_job, initial_status, source_status}
use standin_app_server.Jobs.Samples.{stored_job, empty_tables, tuesday}

abbrev hash : String
hash = "0123456789abcdef0123456789abcdef0123456789abcdef0123456789abcdef"

abbrev preset : String → Json
preset id =
    object (field "id" (text id) (field "label" (text id) (field "description" (text "") end)))

abbrev answer : Json
answer = object (
    field "schema_version" (number (integer 1)) (
      field "library_version" (text "v1") (
        field "library_sha256" (text hash) (
          field "default_preset" (text "relaxed") (
            field "categories"
              (array (
                cons
                  (object (
                    field "id" (text "basic") (
                      field "label" (text "Basic") (
                        field "presets" (array (cons (preset "relaxed") (cons (preset "fist") nil)))
                          end))))
                  nil))
              (field "fallback_order" (array (cons (text "fist") (cons (text "open") nil)))
                end))))))

abbrev library : HandCatalog
library = record {
  library_version = "v1";
  library_sha256 = hash;
  default_preset = "relaxed";
  fallback_order = "fist" ∷ [];
  thumbnails_available = false;
  categories =
      record {
        id = "basic";
        label = "Basic";
        presets =
            record { id = "relaxed"; label = "relaxed"; description = ""; thumbnails = none }
            ∷ record { id = "fist"; label = "fist"; description = ""; thumbnails = none }
            ∷ [];
      }
      ∷ [];
}

answer-library : parse_catalog (some answer) ≡ done library
unfolding parse_catalog is_one is_true parse_categories parse_category parse_presets parse_preset
    thumbnails_of known_texts order_of is_preset is_sha record_of mem String-discrete Bool-cases
answer-library = refl

library-IsLibrary : IsLibrary library
library-IsLibrary = parse_catalog-IsLibrary (some answer) library answer-library

abbrev person : Person
person = record {
  person_index = 0;
  columns = "";
  candidates =
      record { id = "c1"; pose_id = some "p1"; rank = 1; view = "front"; columns = "" } ∷ [];
  hands = none;
  hand_selection = none;
  output_scope = none;
  presentation = none;
}

abbrev result : AnalysisResult
result = record {
  is_semantic = false;
  image_size = none;
  persons = person ∷ [];
  inference_metadata = "{}";
  text = "{}";
}

abbrev analysed : Tables
analysed = record empty_tables {
  jobs = record stored_job { status = completed; result_json = some result } ∷ [];
}

abbrev fist : HandChange
fist = record { left = some "fist"; right = none; library_sha256 = hash; expected_revision = 0 }

abbrev changed : Tables × Tried HandError HandSelection
changed = hand_selection (done library) "inst_1" "job_1" 0 (some fist) tuesday analysed

abbrev with_fist : HandSelection
with_fist = record (with_changed (record (first_selection library 0 person) { left = "fist" })) {
  revision = 1;
}

choose-fist : choose_hands library 0 person (some fist) ≡ done with_fist
unfolding choose_hands current_selection sync check_change apply_change with_changed first_selection
    valid_preset read_hands choice mem record_of String-discrete Bool-cases
choose-fist = refl

changed-fist : changed.1 ≡ done with_fist
unfolding hand_selection transaction select_hands find_job stored_job new_job initial_status
    source_status ready_result shown_person find_person is_shown includes_hands
    resolve_person_output_scope resolve_fields resolved_of scope_selection body_scope
    mesh_of_detected scope_includes_hands choose_hands current_selection sync check_change
    apply_change with_changed first_selection valid_preset read_hands choice mem record_of
    String-discrete Bool-cases
changed-fist = refl

abbrev seen_first : HandSelection
seen_first = with_changed (first_selection library 0 person)

read-first :
    (hand_selection (done library) "inst_1" "job_1" 0 none tuesday analysed).1 ≡ done seen_first
unfolding hand_selection transaction select_hands find_job stored_job new_job initial_status
    source_status ready_result shown_person find_person is_shown includes_hands
    resolve_person_output_scope resolve_fields resolved_of scope_selection body_scope
    mesh_of_detected scope_includes_hands choose_hands current_selection sync check_change
    apply_change with_changed first_selection valid_preset read_hands choice mem record_of
    String-discrete Bool-cases
read-first = refl

-- The same request again, by a client that has not seen the answer.
hand_selection-refuses_example :
    (with_fist.revision ≡ 1)
    × ((e : HandError) × (hand_selection
            (done library)
            "inst_1"
            "job_1"
            0
            (some fist)
            (tuesday + 1)
            changed.0
          ≡ (changed.0, thrown e)))
unfolding with_changed first_selection valid_preset read_hands choice mem record_of String-discrete
    Bool-cases
hand_selection-refuses_example =
    hand_selection-refuses (done library) "inst_1" "job_1" 0 fist tuesday analysed seen_first
      with_fist fist tuesday (tuesday + 1) read-first changed-fist refl refl

abbrev no_caches : Caches
no_caches = record { cached = none; ready = none }

abbrev times : Times
times = record { asked = tuesday; received = tuesday + 20; verified = tuesday + 40 }

ready_hand_catalog-IsLibrary_example :
    CachesAreLibraries
      (ready_hand_catalog true false times (answered true (some answer)) failed no_caches).0
    × ResultIsLibrary
        (ready_hand_catalog true false times (answered true (some answer)) failed no_caches).1
ready_hand_catalog-IsLibrary_example =
    ready_hand_catalog-IsLibrary true false times (answered true (some answer)) failed no_caches
      (record { cached = tt; ready = tt })

-- Two callers share a check, a third is answered from the cache, and a fourth after it waits.
abbrev callers : List Event
callers = asked 1000 ∷ asked 1200 ∷ checked 2000 (done library) ∷ asked 6999 ∷ asked 7000 ∷ []

callers_answers :
    (run callers start).answers
    ≡ (6999, done library) ∷ (2000, done library) ∷ (2000, done library) ∷ []
unfolding run step ask join_check end_check fresh_catalog keep_for
callers_answers = refl

run-answers_example :
    (length (run callers start).answers + waiting (run callers start).flight.pending
      ≡ calls callers)
    × All (λ a. IsCurrent a.0 a.1 (run callers start).checks) (run callers start).answers
run-answers_example = run-answers callers

-- Where the feature is off no server is asked.
available_off : (hand_selection_available false times failed failed no_caches).1 ≡ false
unfolding hand_selection_available
available_off = refl
