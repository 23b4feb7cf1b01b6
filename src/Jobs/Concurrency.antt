-- ===== src/Jobs/Concurrency.antt =====
-- The limit of simultaneous analyses over any history of requests, workers, sweeps and deletions, as the
-- code counts the jobs.
pub mod Fresh
use standin_app_server.Prelude.{
  ℕ, ◌+◌, ◌≤◌, ◌<◌, ◌≡◌, ◌⊎◌, inl, inr, refl, ap, Bool, true, false, ◌&&◌, List, [], ◌∷◌, arith,
  String, String-discrete, Option, none, some,
}
use standin_app_server.Limits.Policy.{limit_value}
use standin_app_server.Jobs.Rows.{
  semantic, JobRow, AnalysisResult, in_progress, update_where, count_running, counts_as_running,
  is_none, same,
}
use standin_app_server.Jobs.Rows.Laws.{
  count_running-update_where, count_running-update_all, count_running-later,
}
use standin_app_server.Jobs.Tables.{Tables, Config}
use standin_app_server.Jobs.Create.{
  JobInput, new_job, capture_body_policy, insert_job, stale_cutoff, applies, create_job_with_limits,
  create_semantic_job, create_job,
}
use standin_app_server.Jobs.Create.Steps.{running_jobs}
use standin_app_server.Jobs.Create.Quota.{create_job_with_limits-Details}
use standin_app_server.Jobs.Lifecycle.{
  claim_job, claimable, claim_set, holds, renew_job_lease, fail_job, fail_set, fail_stale_jobs,
  is_stale, abandoned, set_job_input, update_job, patch_set, delete_where, delete_jobs,
  delete_owned_job,
}
use standin_app_server.Jobs.Lifecycle.Leases.{completed_patch, jobs-refund_for}

-- What happens to the tables: a request under the limits, a text search, and all that happens to a
-- job later. Each call has its times.
pub data Call : Type 0 where
  requests : (policy id : String) (now_ms at : ℕ) (user : Option String) (input : JobInput) → Call
  searches : (policy id : String) (now : ℕ) (installation : String) (user : Option String) → Call
  stores :
      (id : String) (s3_key : Option String) (sha256 : String) (enqueue : Bool) (now : ℕ) → Call
  claims : (id worker : String) (now lease : ℕ) → Call
  renews : (id worker : String) (now at lease : ℕ) → Call
  fails : (id code : String) (now : ℕ) (refund_quota refunded : Bool) → Call
  completes : (id : String) (result : AnalysisResult) (now : ℕ) → Call
  sweeps : (now : ℕ) → Call
  deletes : (id installation : String) (now : ℕ) → Call

abbrev pub call_time : Call → ℕ
call_time (requests policy id now_ms at user input) = now_ms
call_time (searches policy id now installation user) = now
call_time (stores id s3_key sha256 enqueue now) = now
call_time (claims id worker now lease) = now
call_time (renews id worker now at lease) = now
call_time (fails id code now refund_quota refunded) = now
call_time (completes id result now) = now
call_time (sweeps now) = now
call_time (deletes id installation now) = now

pub step : Config → Tables → Call → Tables
step config db (requests policy id now_ms at user input) =
    (create_job_with_limits config policy id now_ms at user input db).0
step config db (searches policy id now installation user) =
    (create_semantic_job config policy id now installation user db).0
step config db (stores id s3_key sha256 enqueue now) = set_job_input id s3_key sha256 enqueue now db
step config db (claims id worker now lease) = (claim_job id worker now lease db).0
step config db (renews id worker now at lease) = (renew_job_lease id worker now at lease db).0
step config db (fails id code now refund_quota refunded) =
    (fail_job config id code now refund_quota refunded db).0
step config db (completes id result now) = update_job id (completed_patch result) now db
step config db (sweeps now) = (fail_stale_jobs config now db).0
step config db (deletes id installation now) = (delete_owned_job id installation db).0

pub run : Config → Tables → List Call → Tables
run config db [] = db
run config db (c ∷ cs) = run config (step config db c) cs

-- The times of the calls do not go back.
abbrev pub IsOrdered : ℕ → List Call → Type 0
IsOrdered now [] = Unit
IsOrdered now (c ∷ cs) = (now ≤ call_time c) × IsOrdered (call_time c) cs

abbrev pub last_time : ℕ → List Call → ℕ
last_time now [] = now
last_time now (c ∷ cs) = last_time (call_time c) cs

module _ (config : Config) (installation : String) where
  -- Other installations' new jobs, and text searches, do not count.
  insert_job-apart :
      (policy id : String) (cutoff at : ℕ) (user : Option String) (input : JobInput) (db : Tables)
      → ((db' : Tables)
          → counts_as_running installation cutoff (new_job db' id at user none (some input))
            ≡ false)
      → count_running installation cutoff
          (insert_job config policy id at user none (some input) db).0.jobs
        ≤ count_running installation cutoff db.jobs
  unfolding insert_job capture_body_policy count_running counts_as_running
  insert_job-apart policy id cutoff at user input db apart = ground (
    arith,
    apart db,
    count_running-update_where installation cutoff (λ j. is_none j.body_policy_json)
        (λ j. record j { body_policy_json = some policy }) (λ j t c. c) id
        (new_job db id at user none (some input) ∷ db.jobs),
  )

  new_job-apart :
      (id : String) (cutoff at : ℕ) (user : Option String) (input : JobInput) (db : Tables)
      → (same input.installation_id installation ≡ false) ⊎ (input.source ≡ semantic)
      → counts_as_running installation cutoff (new_job db id at user none (some input)) ≡ false
  unfolding new_job counts_as_running
  new_job-apart id cutoff at user input db (inl other) = ground (arith, other)
  new_job-apart id cutoff at user input db (inr text) = rw (text, counts_as_running) (ground arith)

  count_running-delete_where :
      (cutoff : ℕ) (test : JobRow → Bool) (js : List JobRow)
      → count_running installation cutoff (delete_where test js)
        ≤ count_running installation cutoff js
  unfolding count_running delete_where
  count_running-delete_where cutoff test [] = omega arith
  count_running-delete_where cutoff test (j ∷ js) =
      ground (arith, count_running-delete_where cutoff test js)

  claim-counts :
      (cutoff now lease : ℕ) (worker : String) (j : JobRow)
      → claimable now j ≡ true
      → counts_as_running installation cutoff j ≡ false
      → counts_as_running installation cutoff (claim_set worker now lease j) ≡ false
  unfolding claimable counts_as_running
  claim-counts cutoff now lease worker j t c = ground arith

  deletes-le :
      (id name : String) (cutoff : ℕ) (db : Tables)
      → count_running installation cutoff (delete_owned_job id name db).0.jobs
        ≤ count_running installation cutoff db.jobs
  unfolding delete_owned_job delete_jobs
  deletes-le id name cutoff db =
      ground (arith, count_running-delete_where cutoff (λ j. same j.id id) db.jobs)

  -- No call but a new request makes more jobs count.
  abbrev NotRequest : Call → Type 0
  NotRequest (requests policy id now_ms at user input) = ⊥
  NotRequest c = Unit

  step-le :
      (cutoff : ℕ) (db : Tables) (c : Call)
      → NotRequest c
      → count_running installation cutoff (step config db c).jobs
        ≤ count_running installation cutoff db.jobs
  unfolding step create_semantic_job create_job set_job_input claim_job renew_job_lease fail_job
      update_job patch_set fail_stale_jobs counts_as_running
  step-le cutoff db (requests policy id now_ms at user input) n = elim n [ ]
  step-le cutoff db (searches policy id now name user) n =
      insert_job-apart policy id cutoff now user _ db
        (λ db'. new_job-apart id cutoff now user _ db' (inr refl))
  step-le cutoff db (stores id s3_key sha256 enqueue now) n =
      count_running-update_where installation cutoff _ _ (λ j t c. c) id db.jobs
  step-le cutoff db (claims id worker now lease) n =
      count_running-update_where installation cutoff (claimable now) (claim_set worker now lease)
        (λ j t c. claim-counts cutoff now lease worker j t c) id db.jobs
  step-le cutoff db (renews id worker now at lease) n =
      count_running-update_where installation cutoff (holds worker) _ (λ j t c. c) id db.jobs
  step-le cutoff db (fails id code now refund_quota refunded) n =
      rw
        (jobs-refund_for config now (refund_quota && refunded)
          (update_where id (λ j. in_progress j.status) (fail_set code now) db.jobs).1
          (record db {
            jobs = (update_where id (λ j. in_progress j.status) (fail_set code now) db.jobs).0;
          }))
        (count_running-update_where installation cutoff (λ j. in_progress j.status)
          (fail_set code now) (λ j t c. ground arith) id db.jobs)
  step-le cutoff db (completes id result now) n =
      count_running-update_where installation cutoff (λ j. true) _ (λ j t c. ground arith) id
        db.jobs
  step-le cutoff db (sweeps now) n =
      count_running-update_all installation cutoff (is_stale config now) (fail_set abandoned now)
        (λ j t c. ground arith) db.jobs
  step-le cutoff db (deletes id name now) n = deletes-le id name cutoff db

  -- At a time the installation's running jobs stay within the limit.
  abbrev pub CountsWithin : ℕ → Tables → Type 0
  CountsWithin now db =
      running_jobs config installation now db ≤ limit_value config.quota_installation_concurrent

  own_request :
      (name : String) (now_ms : ℕ) (db db' : Tables)
      → name ≡ installation
      → applies config installation config.quota_installation_concurrent ≡ true
      → running_jobs config name now_ms db' ≤ running_jobs config name now_ms db + 1
      → (applies config name config.quota_installation_concurrent ≡ true
          → running_jobs config name now_ms db < limit_value config.quota_installation_concurrent)
      → CountsWithin now_ms db'
  own_request name now_ms db db' own on grows fits =
      let grows' = rw own at grows in let fits' = rw own at fits in omega (arith, grows', fits' on)

  request-CountsWithin :
      (policy id : String) (now_ms at : ℕ) (user : Option String) (input : JobInput) (db : Tables)
      → applies config installation config.quota_installation_concurrent ≡ true
      → CountsWithin now_ms db
      → CountsWithin now_ms (create_job_with_limits config policy id now_ms at user input db).0
  unfolding running_jobs
  request-CountsWithin policy id now_ms at user input db on v =
      elim (create_job_with_limits-Details config policy id now_ms at user input db) [
        | inr (e, refused, _) ↦ rw refused v
        | inl (room, (db₃, same_jobs, made), counted) ↦
            elim (String-discrete input.installation_id installation) [
              | yes own ↦
                  own_request input.installation_id now_ms db
                    (create_job_with_limits config policy id now_ms at user input db).0 own on
                    counted.running room.concurrent
              | no other ↦ rw made (
                  omega (
                    arith,
                    insert_job-apart policy id (stale_cutoff config now_ms) at user input db₃
                        (λ db'.
                          new_job-apart id (stale_cutoff config now_ms) at user input db'
                            (inl (ground arith))),
                    ap (count_running installation (stale_cutoff config now_ms)) same_jobs,
                  ))
            ]
      ]

  step-CountsWithin :
      (now : ℕ) (db : Tables) (c : Call)
      → applies config installation config.quota_installation_concurrent ≡ true
      → now ≤ call_time c
      → CountsWithin now db
      → CountsWithin (call_time c) (step config db c)
  unfolding step running_jobs
  step-CountsWithin now db (requests policy id now_ms at user input) on h v =
      request-CountsWithin policy id now_ms at user input db on (
        omega (
          arith,
          count_running-later installation (stale_cutoff config now) (stale_cutoff config now_ms)
              db.jobs,
        ))
  step-CountsWithin now db c on h v = omega (
    arith,
    count_running-later installation (stale_cutoff config now) (stale_cutoff config (call_time c))
        db.jobs,
    step-le (stale_cutoff config (call_time c)) db c tt,
  )

  pub run-CountsWithin :
      (now : ℕ) (db : Tables) (cs : List Call)
      → applies config installation config.quota_installation_concurrent ≡ true
      → IsOrdered now cs
      → CountsWithin now db
      → CountsWithin (last_time now cs) (run config db cs)
  unfolding run
  run-CountsWithin now db [] on o v = v
  run-CountsWithin now db (c ∷ cs) on (h, o) v =
      run-CountsWithin (call_time c) (step config db c) cs on o (step-CountsWithin now db c on h v)
