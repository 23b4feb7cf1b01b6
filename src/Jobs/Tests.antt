-- ===== src/Jobs/Tests.antt =====
-- Runs of the jobs' code on concrete tables.
use standin_app_server.Prelude.{
  ◌+◌, ◌≡◌, refl, true, List, [], ◌∷◌, arith, String-discrete, none, some, Bool-cases,
}
use standin_app_server.Jobs.Samples.{
  config, tuesday, input, empty_tables, stored_job, one_job, ended_job, one_ended, result,
}
use standin_app_server.Limits.Policy.{is_disabled, is_quota_exempt}
use standin_app_server.Jobs.Rows.{in_progress, find_job, count_running, update_where}
use standin_app_server.Jobs.Create.{applies}
use standin_app_server.Jobs.Create.Steps.{running_jobs}
use standin_app_server.Jobs.Create.Quota.{Outcome, create_job_with_limits-Outcome}
use standin_app_server.Jobs.Lifecycle.{
  claim_job, claim_set, claimable, renew_job_lease, fail_job, fail_stale_jobs, delete_owned_job,
}
use standin_app_server.Jobs.Lifecycle.Leases.{
  WorkerCall, worker_run, InTerm, claim_job-claim_job, claim_job-exclusive,
}
use standin_app_server.Jobs.Lifecycle.Leases as Leases
use standin_app_server.Jobs.Lifecycle.Terminal.{ended_stays}
use standin_app_server.Jobs.Lifecycle.Deletion.{Answers, delete_owned_job-Answers}
use standin_app_server.Jobs.Concurrency.{Call, requests, claims, completes, deletes, run, last_time}
use standin_app_server.Jobs.Concurrency.Fresh.{IsWithin, run-IsWithin}

-- Three requests, a worker on the first job, its end and deletion.
abbrev history : List Call
history =
    requests "p" "job_1" tuesday tuesday none input
    ∷ requests "p" "job_2" (tuesday + 1) (tuesday + 1) none input
    ∷ requests "p" "job_3" (tuesday + 2) (tuesday + 2) none input
    ∷ claims "job_1" "w" (tuesday + 3) 60
    ∷ completes "job_1" result (tuesday + 4)
    ∷ deletes "job_1" "inst_1" (tuesday + 5)
    ∷ []

run-IsWithin_example :
    IsWithin config "inst_1" (last_time tuesday history) (run config empty_tables history)
unfolding running_jobs count_running applies is_disabled is_quota_exempt
run-IsWithin_example =
    run-IsWithin config "inst_1" tuesday empty_tables history refl
      (omega arith, (omega arith, (omega arith, (omega arith, (omega arith, (omega arith, tt))))))
      (omega arith)

create_job_with_limits-Outcome_example :
    Outcome config "p" "job_2" (tuesday + 1) (tuesday + 1) none input one_job
create_job_with_limits-Outcome_example =
    create_job_with_limits-Outcome config "p" "job_2" (tuesday + 1) (tuesday + 1) none input one_job

abbrev others_calls : List WorkerCall
others_calls =
    Leases.renews "job_1" "w" (tuesday + 100) (tuesday + 101)
    ∷ Leases.fails "job_1" "INFERENCE_FAILED" (tuesday + 200) true true
    ∷ Leases.claims "job_1" "w2" (tuesday + 300)
    ∷ []

claim_job-exclusive_example :
    (claim_job "job_1" "w2"
      (tuesday + 60000)
      60
      (worker_run config 60 (claim_job "job_1" "w" tuesday 60 one_job).0 others_calls)).1
    ≡ none
unfolding claim_job claimable update_where String-discrete Bool-cases stored_job
claim_job-exclusive_example =
    claim_job-exclusive config "job_1" "w" "w2" tuesday (tuesday + 60000) 60 60 one_job
      (claim_set "w" tuesday 60 stored_job) others_calls refl
      ((omega arith, omega arith), ((omega arith, omega arith), ((omega arith, omega arith), tt)))
      (omega arith)

ended_stays_example :
    (find_job "job_1" (claim_job "job_1" "w" tuesday 60 one_ended).0.jobs ≡ some ended_job)
    × (find_job "job_1" (renew_job_lease "job_1" "w" tuesday tuesday 60 one_ended).0.jobs
        ≡ some ended_job)
    × (find_job "job_1" (fail_job config "job_1" "LATE" tuesday true true one_ended).0.jobs
        ≡ some ended_job)
    × (find_job "job_1" (fail_stale_jobs config tuesday one_ended).0.jobs ≡ some ended_job)
unfolding find_job String-discrete Bool-cases in_progress stored_job
ended_stays_example =
    ended_stays config "job_1" "job_1" "w" "LATE" tuesday tuesday 60 true true one_ended ended_job
      refl refl

delete_owned_job-Answers_example :
    Answers "job_1" "inst_1" one_ended (delete_owned_job "job_1" "inst_1" one_ended)
delete_owned_job-Answers_example = delete_owned_job-Answers "job_1" "inst_1" one_ended
