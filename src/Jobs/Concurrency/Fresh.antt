-- ===== src/Jobs/Concurrency/Fresh.antt =====
-- The fresh jobs of an installation, described without the code's count, and their limit.
use standin_app_server.Prelude.{
  ℕ, ◌-◌, ◌*◌, ◌≤◌, ◌≡◌, refl, Bool, true, false, ◌&&◌, List, [], ◌∷◌, arith, ltb, String, Option,
  none, some, length,
}
use standin_app_server.Limits.Policy.{limit_value}
use standin_app_server.Jobs.Rows.{
  JobStatus, queued, running, completed, failed, JobSource, semantic, JobRow, in_progress,
  count_running, counts_as_running, same,
}
use standin_app_server.Jobs.Tables.{Tables, Config}
use standin_app_server.Jobs.Create.{applies}
use standin_app_server.Jobs.Create.Steps.{running_jobs}
use standin_app_server.Jobs.Concurrency.{Call, run, IsOrdered, last_time, run-CountsWithin}

abbrev pub has_begun : JobStatus → Bool
has_begun queued = true
has_begun running = true
has_begun completed = false
has_begun failed = false

-- A job without an image source counts.
abbrev pub is_text_search : Option JobSource → Bool
is_text_search (some semantic) = true
is_text_search _ = false

abbrev pub is_of_installation : String → Option String → Bool
is_of_installation installation none = false
is_of_installation installation (some owner) = same owner installation

-- The jobs of an installation that are queued or running, were made less than `stale_seconds` before
-- `now`, and are no text searches.
abbrev pub fresh_jobs : ℕ → String → ℕ → List JobRow → List JobRow
fresh_jobs stale_seconds installation now [] = []
fresh_jobs stale_seconds installation now (j ∷ js) = elim (has_begun j.status) [
  | false ↦ fresh_jobs stale_seconds installation now js
  | true ↦ elim (is_text_search j.source) [
    | true ↦ fresh_jobs stale_seconds installation now js
    | false ↦
        elim (is_of_installation installation j.installation_id
          && ltb (now - stale_seconds * 1000) j.created_at) [
            | true ↦ j ∷ fresh_jobs stale_seconds installation now js
            | false ↦ fresh_jobs stale_seconds installation now js
          ]
  ]
]

-- At a time the fresh jobs of an installation are at most as many as the limit.
abbrev pub IsWithin : Config → String → ℕ → Tables → Type 0
IsWithin config installation now db =
    length (fresh_jobs config.analysis_stale_after_seconds installation now db.jobs)
    ≤ limit_value config.quota_installation_concurrent

length-fresh_jobs :
    (stale_seconds : ℕ) (installation : String) (now : ℕ) (js : List JobRow)
    → length (fresh_jobs stale_seconds installation now js)
      ≡ count_running installation (now - stale_seconds * 1000) js
unfolding count_running counts_as_running in_progress
length-fresh_jobs stale_seconds installation now [] = refl
length-fresh_jobs stale_seconds installation now (j ∷ js) =
    ground (arith, length-fresh_jobs stale_seconds installation now js)

-- Where a limit of simultaneous analyses applies to the installation: when at most as many of its fresh
-- jobs as the limit are queued or running at the start, and the times of the calls do not go back, then
-- this is so after any sequence of requests, text searches, claims, renewals, failures, completions,
-- sweeps and deletions, by whichever installations and workers. A fresh job is younger than the age from
-- which it is taken for stale, and no text search: text searches and older jobs are not counted.
pub run-IsWithin :
    (config : Config) (installation : String) (now : ℕ) (db : Tables) (cs : List Call)
    → applies config installation config.quota_installation_concurrent ≡ true
    → IsOrdered now cs
    → IsWithin config installation now db
    → IsWithin config installation (last_time now cs) (run config db cs)
unfolding running_jobs
run-IsWithin config installation now db cs on ordered within =
    let stale = config.analysis_stale_after_seconds in
    let kept =
      run-CountsWithin config installation now db cs on ordered
        (omega (arith, length-fresh_jobs stale installation now db.jobs)) in
    omega
      (arith, kept, length-fresh_jobs stale installation (last_time now cs) (run config db cs).jobs)
