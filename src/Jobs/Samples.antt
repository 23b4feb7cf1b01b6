-- ===== src/Jobs/Samples.antt =====
-- Tables and configurations that the tests of the jobs run on.
use standin_app_server.Prelude.{ℕ, ◌+◌, true, false, [], ◌∷◌, none, some}
use standin_app_server.Limits.Policy.{whole}
use standin_app_server.Jobs.Rows.{completed, capture, AnalysisResult, JobRow}
use standin_app_server.Jobs.Tables.{Tables, Config}
use standin_app_server.Jobs.Create.{JobInput, new_job, initial_status, source_status}

abbrev pub config : Config
config = record {
  quota_installation_concurrent = whole 2;
  quota_installation_weekly = whole 30;
  quota_global_daily = whole 1000;
  quota_exempt_installations = [];
  analysis_stale_after_seconds = 600;
  body_selection_enabled = true;
}

-- A Tuesday evening of August 2026.
abbrev pub tuesday : ℕ
tuesday = 1786422896789

abbrev pub input : JobInput
input = record {
  installation_id = "inst_1";
  source = capture;
  mime = "image/png";
  size = 4096;
  width = some 640;
  height = some 480;
}

abbrev pub empty_tables : Tables
empty_tables = record {
  jobs = [];
  outbox = [];
  people = [];
  candidates = [];
  selections = [];
  body_selections = [];
  others = [];
  counters = [];
  consents = λ installation. none;
}

unfoldable pub stored_job : JobRow
unfolding new_job initial_status source_status
stored_job = record (new_job empty_tables "job_1" tuesday none none (some input)) {
  input_s3_key = some "inputs/job_1";
}

abbrev pub one_job : Tables
one_job = record empty_tables { jobs = stored_job ∷ [] }

abbrev pub ended_job : JobRow
ended_job = record stored_job { status = completed; completed_at = some (tuesday + 9000) }

abbrev pub one_ended : Tables
one_ended = record empty_tables { jobs = ended_job ∷ [] }

abbrev pub result : AnalysisResult
result = record {
  is_semantic = false;
  image_size = some (640, 480);
  persons = [];
  inference_metadata = "{}";
  text = "{}";
}
