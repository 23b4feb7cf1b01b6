-- ===== src/Jobs/Lifecycle/Leases.antt =====
-- The worker's lease on a job: who may claim it, and when.
use standin_app_server.Prelude.{
  ℕ, ◌+◌, ◌*◌, ◌≤◌, ◌<◌, ◌≡◌, ◌↔◌, inl, inr, refl, ◌∙◌, Bool, true, false, ◌&&◌, List, [], ◌∷◌,
  arith, ite, String, String-discrete, Option, none, some, All, Bool-cases, Option-cases,
}
use standin_app_server.Jobs.Rows.{
  JobStatus, queued, running, completed, failed, AnalysisResult, JobRow, in_progress, find_job,
  update_where, is_none,
}
use standin_app_server.Jobs.Rows.Laws.{
  updated, returned, update_where-returned, find_job-update_where,
}
use standin_app_server.Jobs.Tables.{Tables, Config}
use standin_app_server.Jobs.Create.{refund_analysis_quota}
use standin_app_server.Jobs.Lifecycle.{
  open_to_claim, claimable, claim_set, claim_job, holds, renew_job_lease, fail_job, fail_set,
  refund_for, Patch, patch_set, update_job,
}

-- The row that a successful claim returns is the row of its id, and has the lease.
pub record IsLeased (id : String) (until : ℕ) (db : Tables) (j : JobRow) : Type 0 where
  pub row : find_job id db.jobs ≡ some j
  pub status : j.status ≡ running
  pub input : is_none j.input_s3_key ≡ false
  pub expires : j.lease_expires_at ≡ some until

pub claim_job-IsLeased :
    (id w : String) (now lease : ℕ) (db : Tables) (j : JobRow)
    → (claim_job id w now lease db).1 ≡ some j
    → IsLeased id (now + lease * 1000) (claim_job id w now lease db).0 j
unfolding claim_job claimable
claim_job-IsLeased id w now lease db j e =
    let found = update_where-returned id (claimable now) (claim_set w now lease) db.jobs in
    let kept =
      find_job-update_where (claim_set w now lease) (λ k. refl) id id (claimable now) db.jobs in
    elim (Option-cases (find_job id db.jobs)) [
      | inl missing ↦ absurd (cc (rw missing at found, e))
      | inr (k, here) ↦
          let got = rw here at found in
          let left = rw here at kept in
          record {
            row = ground (arith, got, left);
            status = ground (arith, got);
            input = ground (arith, got);
            expires = ground (arith, got);
          }
    ]

-- After a claim, a second claim succeeds exactly when the first lease has run out.
pub claim_job-claim_job :
    (id w w' : String) (now now' lease lease' : ℕ) (db : Tables) (j : JobRow)
    → (claim_job id w now lease db).1 ≡ some j
    → (is_none (claim_job id w' now' lease' (claim_job id w now lease db).0).1 ≡ false)
      ↔ (now + lease * 1000 < now')
unfolding claim_job claimable
claim_job-claim_job id w w' now now' lease lease' db j e =
    let l = claim_job-IsLeased id w now lease db j e in
    let again =
      update_where-returned id (claimable now') (claim_set w' now' lease')
        (claim_job id w now lease db).0.jobs in
    (
      ground (arith, again, l.row, l.status, l.input, l.expires),
      ground (arith, again, l.row, l.status, l.input, l.expires),
    )

-- What a worker does to a job between its claim and the end of the lease. The lease of a renewal is
-- as long as that of the claim (config.workerLeaseSeconds).
pub data WorkerCall : Type 0 where
  claims : (id worker : String) (now : ℕ) → WorkerCall
  renews : (id worker : String) (now at : ℕ) → WorkerCall
  fails : (id code : String) (now : ℕ) (refund_quota refunded : Bool) → WorkerCall
  completes : (id : String) (result : AnalysisResult) (now : ℕ) → WorkerCall

abbrev pub completed_patch : AnalysisResult → Patch
completed_patch result = record {
  status = some completed;
  result = some (some result);
  error_code = none;
}

pub worker_step : Config → ℕ → Tables → WorkerCall → Tables
worker_step config lease db (claims id worker now) = (claim_job id worker now lease db).0
worker_step config lease db (renews id worker now at) =
    (renew_job_lease id worker now at lease db).0
worker_step config lease db (fails id code now refund_quota refunded) =
    (fail_job config id code now refund_quota refunded db).0
worker_step config lease db (completes id result now) =
    update_job id (completed_patch result) now db

pub worker_run : Config → ℕ → Tables → List WorkerCall → Tables
worker_run config lease db [] = db
worker_run config lease db (c ∷ cs) = worker_run config lease (worker_step config lease db c) cs

abbrev pub call_time : WorkerCall → ℕ
call_time (claims id worker now) = now
call_time (renews id worker now at) = now
call_time (fails id code now refund_quota refunded) = now
call_time (completes id result now) = now

-- A row that no claim takes before `until`.
abbrev Guard : ℕ → JobStatus → Option ℕ → Type 0
Guard until queued expires = ⊥
Guard until running none = ⊥
Guard until running (some e) = until ≤ e
Guard until completed expires = Unit
Guard until failed expires = Unit

abbrev GuardRow : ℕ → Option JobRow → Type 0
GuardRow until none = ⊥
GuardRow until (some j) = Guard until j.status j.lease_expires_at

abbrev IsGuarded : String → ℕ → Tables → Type 0
IsGuarded id until db = GuardRow until (find_job id db.jobs)

-- An update of any id that keeps guarded rows guarded.
guarded_update :
    (id other : String) (until : ℕ) (test : JobRow → Bool) (set : JobRow → JobRow)
    (js : List JobRow)
    → ((j : JobRow) → (set j).id ≡ j.id)
    → ((j : JobRow)
        → test j ≡ true
        → Guard until j.status j.lease_expires_at
        → Guard until (set j).status (set j).lease_expires_at)
    → GuardRow until (find_job id js)
    → GuardRow until (find_job id (update_where other test set js).0)
guarded_update id other until test set js keep stay g =
    let kept = find_job-update_where set keep other id test js in
    rw kept
      (elim (String-discrete other id)
        as (λ d. GuardRow until (ite d (updated test set (find_job other js)) (find_job id js))) [
          | no p ↦ g
          | yes p ↦ rw p (guarded_row (find_job id js) g)
        ])
  where
    guarded_row : (o : Option JobRow) → GuardRow until o → GuardRow until (updated test set o)
    guarded_row none h = h
    guarded_row (some j) h = elim (Bool-cases (test j)) [
      | inl t ↦ rw t (stay j t h)
      | inr f ↦ rw f h
    ]

pub jobs-refund_for :
    (config : Config) (now : ℕ) (refund_quota : Bool) (row : Option JobRow) (db : Tables)
    → (refund_for config now refund_quota row db).jobs ≡ db.jobs
unfolding refund_for refund_analysis_quota
jobs-refund_for config now refund_quota none db = refl
jobs-refund_for config now refund_quota (some j) db = ground arith

Guard-closed :
    (until now : ℕ) (status : JobStatus) (expires : Option ℕ)
    → now ≤ until
    → Guard until status expires
    → open_to_claim now status expires ≡ false
Guard-closed until now queued expires h g = elim g [ ]
Guard-closed until now running none h g = elim g [ ]
Guard-closed until now running (some e) h g = ground arith
Guard-closed until now completed expires h g = refl
Guard-closed until now failed expires h g = refl

claimable-Guard :
    (until now : ℕ) (j : JobRow)
    → now ≤ until
    → Guard until j.status j.lease_expires_at
    → claimable now j ≡ false
unfolding claimable
claimable-Guard until now j h g =
    ground (arith, Guard-closed until now j.status j.lease_expires_at h g)

renew-Guard :
    (until e : ℕ) (status : JobStatus) (expires : Option ℕ)
    → until ≤ e
    → Guard until status expires
    → Guard until status (some e)
renew-Guard until e queued expires h g = g
renew-Guard until e running expires h g = h
renew-Guard until e completed expires h g = tt
renew-Guard until e failed expires h g = tt

-- Within the term of a lease: after the claim, and before the lease ends.
abbrev pub InTerm : ℕ → ℕ → WorkerCall → Type 0
InTerm start until c = (start ≤ call_time c) × (call_time c ≤ until)

worker_step-IsGuarded :
    (config : Config) (id : String) (start lease : ℕ) (db : Tables) (c : WorkerCall)
    → InTerm start (start + lease * 1000) c
    → IsGuarded id (start + lease * 1000) db
    → IsGuarded id (start + lease * 1000) (worker_step config lease db c)
unfolding worker_step claim_job renew_job_lease fail_job update_job patch_set
worker_step-IsGuarded config id start lease db (claims other worker now) t g =
    guarded_update id other (start + lease * 1000) (claimable now) (claim_set worker now lease)
      db.jobs (λ j. refl)
      (λ j free held. absurd (cc (free, claimable-Guard (start + lease * 1000) now j t.1 held))) g
worker_step-IsGuarded config id start lease db (renews other worker now at) t g =
    guarded_update id other (start + lease * 1000) (holds worker) _ db.jobs (λ j. refl)
      (λ j held h.
        renew-Guard (start + lease * 1000) (now + lease * 1000) j.status j.lease_expires_at
          (omega arith) h)
      g
worker_step-IsGuarded config id start lease db (fails other code now refund_quota refunded) t g =
    rw
      (jobs-refund_for config now (refund_quota && refunded)
        (update_where other (λ j. in_progress j.status) (fail_set code now) db.jobs).1
        (record db {
          jobs = (update_where other (λ j. in_progress j.status) (fail_set code now) db.jobs).0;
        }))
      (guarded_update id other (start + lease * 1000) (λ j. in_progress j.status)
        (fail_set code now) db.jobs (λ j. refl) (λ j free h. tt) g)
worker_step-IsGuarded config id start lease db (completes other result now) t g =
    guarded_update id other (start + lease * 1000) (λ j. true) _ db.jobs (λ j. refl)
      (λ j free h. tt) g

worker_run-IsGuarded :
    (config : Config) (id : String) (start lease : ℕ) (db : Tables) (cs : List WorkerCall)
    → All (InTerm start (start + lease * 1000)) cs
    → IsGuarded id (start + lease * 1000) db
    → IsGuarded id (start + lease * 1000) (worker_run config lease db cs)
unfolding worker_run
worker_run-IsGuarded config id start lease db [] t g = g
worker_run-IsGuarded config id start lease db (c ∷ cs) (here, later) g =
    worker_run-IsGuarded config id start lease (worker_step config lease db c) cs later
      (worker_step-IsGuarded config id start lease db c here g)

IsLeased-IsGuarded :
    (id : String) (until : ℕ) (db : Tables) (j : JobRow)
    → IsLeased id until db j
    → IsGuarded id until db
IsLeased-IsGuarded id until db j l = rw (l.row, l.status, l.expires) (omega arith)

-- One worker at a time: whatever the workers do to any jobs during the term of a lease, claims and
-- renewals of others and this job's end included, no claim of the job succeeds before its end.
pub claim_job-exclusive :
    (config : Config) (id w w' : String) (start now lease lease' : ℕ) (db : Tables) (j : JobRow)
    (cs : List WorkerCall)
    → (claim_job id w start lease db).1 ≡ some j
    → All (InTerm start (start + lease * 1000)) cs
    → now ≤ start + lease * 1000
    → (claim_job id w' now lease' (worker_run config lease (claim_job id w start lease db).0 cs)).1
      ≡ none
unfolding claim_job
claim_job-exclusive config id w w' start now lease lease' db j cs e terms h =
    let until : ℕ = start + lease * 1000 in
    let db' = worker_run config lease (claim_job id w start lease db).0 cs in
    let g =
      worker_run-IsGuarded config id start lease (claim_job id w start lease db).0 cs terms
        (IsLeased-IsGuarded id until _ j (claim_job-IsLeased id w start lease db j e)) in
    update_where-returned id (claimable now) (claim_set w' now lease') db'.jobs
    ∙ refused (find_job id db'.jobs) g
  where
    refused :
        (o : Option JobRow)
        → GuardRow (start + lease * 1000) o
        → returned (claimable now) (claim_set w' now lease') o ≡ none
    refused none g = refl
    refused (some k) g = rw (claimable-Guard (start + lease * 1000) now k h g)
