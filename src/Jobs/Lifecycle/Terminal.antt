-- ===== src/Jobs/Lifecycle/Terminal.antt =====
-- The end of a job: failing, and what may still change a job that has ended.
use standin_app_server.Prelude.{
  ℕ, ◌+◌, ◌*◌, ◌≡◌, ◌≢◌, ◌↔◌, inl, inr, refl, Bool, true, false, ◌&&◌, arith, String, some,
  Option-cases,
}
use standin_app_server.Jobs.Rows.{JobRow, in_progress, find_job, update_where}
use standin_app_server.Jobs.Rows.Laws.{
  update_where-returned, find_job-update_where, find_job-update_all,
}
use standin_app_server.Jobs.Tables.{Tables, Config}
use standin_app_server.Jobs.Lifecycle.{
  claimable, claim_set, claim_job, holds, renew_job_lease, fail_job, fail_set, fail_stale_jobs,
  is_stale, abandoned,
}
use standin_app_server.Jobs.Lifecycle.Leases.{jobs-refund_for}

-- A job that has ended stays as it is when any job is claimed, has its lease renewed or is failed, by
-- whatever worker and at whatever times, and when the stale jobs are failed. Nothing is said of the
-- statements that do not ask for the status: `update_job` and the writing of an analysis's records.
pub ended_stays :
    (config : Config) (id other worker code : String) (now at lease : ℕ)
    (refund_quota refunded : Bool) (db : Tables) (j : JobRow)
    → find_job id db.jobs ≡ some j
    → in_progress j.status ≡ false
    → (find_job id (claim_job other worker now lease db).0.jobs ≡ some j)
      × (find_job id (renew_job_lease other worker now at lease db).0.jobs ≡ some j)
      × (find_job id (fail_job config other code now refund_quota refunded db).0.jobs ≡ some j)
      × (find_job id (fail_stale_jobs config now db).0.jobs ≡ some j)
unfolding claim_job renew_job_lease fail_job fail_stale_jobs in_progress claimable holds
ended_stays config id other worker code now at lease refund_quota refunded db j e h = (
  ground (
    arith,
    find_job-update_where (claim_set worker now lease) (λ k. refl) other id (claimable now) db.jobs,
  ),
  ground (
    arith,
    find_job-update_where
        (λ k. record k { lease_expires_at = some (now + lease * 1000); updated_at = at })
        (λ k. refl) other id (holds worker) db.jobs,
  ),
  ground (
    arith,
    find_job-update_where (fail_set code now) (λ k. refl) other id (λ k. in_progress k.status)
        db.jobs,
    jobs-refund_for config now (refund_quota && refunded)
        (update_where other (λ k. in_progress k.status) (fail_set code now) db.jobs).1
        (record db {
          jobs = (update_where other (λ k. in_progress k.status) (fail_set code now) db.jobs).0;
        }),
  ),
  ground (
    arith,
    find_job-update_all (fail_set abandoned now) (λ k. refl) id (is_stale config now) db.jobs,
  ),
)

-- A failure is reported exactly for a job in progress; that job then is failed with the code, and the
-- row of any other id is as before.
pub fail_job_lem :
    (config : Config) (id code : String) (now : ℕ) (refund_quota refunded : Bool) (db : Tables)
    → (((fail_job config id code now refund_quota refunded db).1 ≡ true)
        ↔ ((j : JobRow) × (find_job id db.jobs ≡ some j) × (in_progress j.status ≡ true)))
      × ((j : JobRow)
          → find_job id db.jobs ≡ some j
          → in_progress j.status ≡ true
          → find_job id (fail_job config id code now refund_quota refunded db).0.jobs
            ≡ some (fail_set code now j))
      × ((other : String)
          → other ≢ id
          → find_job other (fail_job config id code now refund_quota refunded db).0.jobs
            ≡ find_job other db.jobs)
unfolding fail_job
fail_job_lem config id code now refund_quota refunded db =
    let test : JobRow → Bool = λ j. in_progress j.status in
    let jobs = (update_where id test (fail_set code now) db.jobs).0 in
    let row = (update_where id test (fail_set code now) db.jobs).1 in
    let found = update_where-returned id test (fail_set code now) db.jobs in
    let kept = find_job-update_where (fail_set code now) (λ k. refl) id in
    let same_jobs =
      jobs-refund_for config now (refund_quota && refunded) row (record db { jobs = jobs }) in
    (
      elim (Option-cases (find_job id db.jobs)) [
        | inl missing ↦
            let got = rw missing at found in
            (λ t. absurd (ground (arith, got)), λ (j, f, _). absurd (cc (missing, f)))
        | inr (j, here) ↦
            let got = rw here at found in
            (λ t. (j, here, ground (arith, got)), λ (k, f, p). ground (arith, got))
      ],
      λ j here p. rw same_jobs (ground (arith, kept id test db.jobs)),
      λ other ne. rw same_jobs (ground (arith, kept other test db.jobs)),
    )
