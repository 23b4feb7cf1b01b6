-- ===== src/Jobs/Worker/Tests.antt =====
-- Runs of the queue, the records and the worker on concrete tables.
use standin_app_server.Prelude.{
  ◌+◌, ◌≡◌, ◌≢◌, refl, Bool, true, false, List, [], ◌∷◌, arith, String, String-discrete, ap, get_or,
  codes, none, some, Bool-cases,
}
use standin_app_server.Jobs.Rows.{
  failed, Person, AnalysisResult, JobRow, OutboxRow, in_progress, find_job, update_where, same,
}
use standin_app_server.Jobs.Tables.{done}
use standin_app_server.Jobs.Lifecycle.{claim_job, claimable, claim_set}
use standin_app_server.Jobs.Records.{Records, persist_analysis_records, is_given}
use standin_app_server.Jobs.Records.Laws.{HasDistinctPeople}
use standin_app_server.Jobs.Records.Stored.{IsStored, persist-IsStored}
use standin_app_server.Jobs.Queue.{dispatch_pending_jobs}
use standin_app_server.Jobs.Queue.Oldest.{IsOldest}
use standin_app_server.Jobs.Queue.Dispatch.{IsDispatched, dispatch_pending_jobs-IsDispatched}
use standin_app_server.Jobs.Worker.{Times, Failures, Message, run_analysis_job, handle_message}
use standin_app_server.Jobs.Queue.Messages.{
  is_queue_id, message_body, parse_queue_message, parse-message_body,
}
use standin_app_server.Jobs.Worker.Ends.{IsEnded, run_analysis_job-IsEnded, handle_message-refused}
use standin_app_server.Jobs.Samples.{config, tuesday, stored_job, one_job}

abbrev some_body : String → Person → Bool → String
some_body policy p is_semantic = policy

abbrev two_people : AnalysisResult
two_people = record {
  is_semantic = false;
  image_size = some (640, 480);
  persons =
      record {
        person_index = 0;
        columns = "standing";
        candidates =
            record { id = "c1"; pose_id = some "p1"; rank = 1; view = "front"; columns = "" }
            ∷ record { id = "c2"; pose_id = some "p2"; rank = 2; view = "side"; columns = "" }
            ∷ [];
        hands = none;
        hand_selection = none;
        output_scope = none;
        presentation = none;
      }
      ∷ record {
        person_index = 1;
        columns = "sitting";
        candidates = [];
        hands = none;
        hand_selection = none;
        output_scope = none;
        presentation = none;
      }
      ∷ [];
  inference_metadata = "{}";
  text = "{}";
}

abbrev records : Records
records = record {
  result = two_people;
  contexts = [];
  signals = record { person_index = 0; columns = "seen" } ∷ [];
  cut_summary = some "cut";
  complete = false;
}

abbrev first_name : String
first_name = "c1"

names_differ : "c2" ≢ first_name
names_differ p = let d = ap (λ s. get_or (codes s) 1 0) p in omega (arith, d)

distinct : HasDistinctPeople two_people.persons
distinct = (((λ p. cc), tt), (((names_differ, tt), (tt, tt)), (tt, (tt, tt))))

persist-IsStored_example :
    ((persist_analysis_records some_body "job_1" records tuesday one_job).1 ≡ done tt)
    × IsStored "job_1" records
        (is_given stored_job.quality_consent_id)
        tuesday
        stored_job
        one_job
        (persist_analysis_records some_body "job_1" records tuesday one_job).0
unfolding find_job String-discrete Bool-cases stored_job
persist-IsStored_example =
    persist-IsStored some_body "job_1" records tuesday one_job stored_job refl distinct

abbrev waiting : List OutboxRow
waiting =
    record { job_id = "job_1"; created_at = 20; published_at = none; publish_attempts = 0 }
    ∷ record { job_id = "job_2"; created_at = 10; published_at = none; publish_attempts = 0 }
    ∷ []

dispatch_pending_jobs-IsDispatched_example :
    (rows : List OutboxRow) × IsOldest 10 waiting rows
    × IsDispatched
        (λ id. same id "job_2")
        30
        rows
        0
        waiting
        []
        (dispatch_pending_jobs (λ id. same id "job_2") 30 10 waiting [])
dispatch_pending_jobs-IsDispatched_example =
    dispatch_pending_jobs-IsDispatched (λ id. same id "job_2") 30 10 waiting []

abbrev times : Times
times = record { started = tuesday; persisted = tuesday + 5000; ended = tuesday + 6000 }

-- The database refuses the records, and then takes the failure.
abbrev refuses_records : Failures
refuses_records = record { records = true; completion = false; failure = false }

run_analysis_job-IsEnded_example : IsEnded "job_1" (done records) refuses_records (
    run_analysis_job config some_body "job_1"
      (done records)
      false
      true
      refuses_records
      times
      one_job)
unfolding find_job String-discrete Bool-cases stored_job in_progress
run_analysis_job-IsEnded_example =
    run_analysis_job-IsEnded config some_body "job_1" (done records) false true refuses_records
      times one_job stored_job refl refl

-- The analysis succeeds, and the queue refuses to delete the message.
abbrev message : Message
message = record {
  job_id = "job_1";
  analysis = done records;
  loads = true;
  refunded = true;
  deletes = false;
  failures = record { records = false; completion = false; failure = false };
}

handle_message-refused_example :
    (k : JobRow) × (find_job "job_1"
        (handle_message config some_body "w" tuesday 60 message times (tuesday + 7000) one_job).jobs
      ≡ some k)
    × (k.status ≡ failed)
    × (k.error_code ≡ some "INPUT_STORAGE_FAILED")
unfolding claim_job claimable update_where String-discrete Bool-cases stored_job
handle_message-refused_example =
    handle_message-refused config some_body "w" tuesday 60 message times (tuesday + 7000) one_job
      (claim_set "w" tuesday 60 stored_job) refl refl

server_id_read :
    parse_queue_message (some (message_body "job_1b2c3d4e-0000-4000-8000-000000000001"))
    ≡ some "job_1b2c3d4e-0000-4000-8000-000000000001"
unfolding is_queue_id
server_id_read = parse-message_body _ refl
