-- ===== src/Jobs/History/Tests.antt =====
-- Runs of the history on concrete rows, under the order of character codes.
use standin_app_server.Prelude.{
  ℕ, ◌≡◌, ◌⊎◌, inl, inr, refl, ap, Bool, true, false, ◌||◌, ◌&&◌, [], ◌∷◌, map, arith, ltb, ◌==◌,
  none, some, Text, codes, String, get_or,
}
use standin_app_server.Jobs.Rows.{queued, capture, JobRow}
use standin_app_server.Jobs.Tables.{Tables}
use standin_app_server.Jobs.History.{HistoryCursor, is_job_id, to_history_item}
use standin_app_server.Jobs.History.Query.{Collation, own, query_jobs, history_row}
use standin_app_server.Jobs.History.JobOrder.{HasDistinctIds}
use standin_app_server.Jobs.History.Pages.{read_pages, read_pages-whole}

codes_lt : Text → Text → Bool
codes_lt [] [] = false
codes_lt [] (b ∷ bs) = true
codes_lt (a ∷ as_) [] = false
codes_lt (a ∷ as_) (b ∷ bs) = ltb a b || ((a == b) && codes_lt as_ bs)

codes_lt_irrefl : (a : Text) → codes_lt a a ≡ false
unfolding codes_lt
codes_lt_irrefl [] = refl
codes_lt_irrefl (a ∷ rest) = ground (arith, codes_lt_irrefl rest)

codes_lt_trans : (a b c : Text) → codes_lt a b ≡ true → codes_lt b c ≡ true → codes_lt a c ≡ true
unfolding codes_lt
codes_lt_trans [] [] [] h k = cc
codes_lt_trans [] [] (z ∷ zs) h k = refl
codes_lt_trans [] (y ∷ ys) [] h k = cc
codes_lt_trans [] (y ∷ ys) (z ∷ zs) h k = refl
codes_lt_trans (x ∷ xs) [] c h k = cc
codes_lt_trans (x ∷ xs) (y ∷ ys) [] h k = cc
codes_lt_trans (x ∷ xs) (y ∷ ys) (z ∷ zs) h k = ground (arith, codes_lt_trans xs ys zs)

codes_lt_total : (a b : Text) → (codes_lt a b ≡ true) ⊎ ((a ≡ b) ⊎ (codes_lt b a ≡ true))
unfolding codes_lt
codes_lt_total [] [] = inr (inl refl)
codes_lt_total [] (b ∷ bs) = inl refl
codes_lt_total (a ∷ rest) [] = inr (inr refl)
codes_lt_total (a ∷ xs) (b ∷ ys) = ground (arith, codes_lt_total xs ys)

abbrev by_codes : Collation
by_codes = record {
  lt = codes_lt;
  irrefl = codes_lt_irrefl;
  trans = codes_lt_trans;
  total = codes_lt_total;
}

abbrev job : (id : String) (created : ℕ) → JobRow
job id created = record {
  id = id;
  user_id = none;
  status = queued;
  created_at = created;
  updated_at = created;
  result_json = none;
  error_code = none;
  rerun_of = none;
  installation_id = some "inst_1";
  source = some capture;
  input_s3_key = none;
  input_sha256 = none;
  input_stored_at = none;
  input_mime = some "image/png";
  input_size = some 4096;
  input_width = some 640;
  input_height = some 480;
  quality_consent_id = none;
  body_policy_json = none;
  started_at = none;
  completed_at = none;
  lease_owner = none;
  lease_expires_at = none;
  attempt_count = 0;
  inference_metadata_json = none;
  cut_summary_json = none;
}

abbrev tuesday : ℕ
tuesday = 1786422896789

-- Two jobs of the same millisecond.
abbrev two_jobs : Tables
two_jobs = record {
  jobs =
      job "job_1b2c3d4e-0000-4000-8000-000000000001" tuesday
      ∷ job "job_2b2c3d4e-0000-4000-8000-000000000001" tuesday
      ∷ [];
  outbox = [];
  people = [];
  candidates = [];
  selections = [];
  body_selections = [];
  others = [];
  counters = [];
  consents = λ installation. none;
}

abbrev first_cursor : HistoryCursor
first_cursor = record {
  created_at = codes "2026-08-11T05:34:56.789Z";
  id = codes "job_1b2c3d4e-0000-4000-8000-000000000001";
}

two_jobs-HasDistinctIds : HasDistinctIds two_jobs.jobs
two_jobs-HasDistinctIds =
    (((λ p. let d = ap (λ t. get_or t 4 0) p in omega (arith, d)), tt), (tt, tt))

read_pages-whole_example :
    read_pages by_codes
      (own "inst_1" tuesday)
      3
      (record { limit = 1; cursor = none; status = none })
      two_jobs
    ≡ map to_history_item (
        map
          (history_row two_jobs)
          (query_jobs by_codes (own "inst_1" tuesday) none none two_jobs.jobs))
unfolding is_job_id
read_pages-whole_example =
    read_pages-whole by_codes (own "inst_1" tuesday) 1 3 none two_jobs two_jobs-HasDistinctIds
      (refl, (refl, tt)) (omega arith) (omega arith)
