-- ===== src/Jobs/Create/Quota.antt =====
-- The limits that a new job has met, or the one that refused it.
use standin_app_server.Prelude.{
  ℕ, ◌+◌, ◌≤◌, ◌<◌, ◌≡◌, ◌≢◌, ◌⊎◌, ◌∙◌, inl, inr, refl, sym, ap, true, ◌∷◌, arith, if◌then◌else◌,
  String, Option, none, some,
}
use standin_app_server.Limits.Policy.{
  limit_value, LimitExceeded, LimitCode, rate_limited, concurrency_limit, weekly_quota_exceeded,
  global_quota_exceeded, daily_window, weekly_window,
}
use standin_app_server.Limits.Counters.{installation_week, global_day, current_usage, counter_key}
use standin_app_server.Jobs.Rows.{JobRow, count_running, counts_as_running, is_none}
use standin_app_server.Jobs.Rows.Laws.{count_running-update_where}
use standin_app_server.Jobs.Tables.{Tables, Config, Tried, done, thrown, transaction}
use standin_app_server.Jobs.Create.{
  JobInput, new_job, capture_body_policy, insert_job, stale_cutoff, applies, check_concurrency,
  weekly_refusal, daily_refusal, consume_weekly, consume_daily, create_job_with_limits,
}
use standin_app_server.Jobs.Create.Steps.{
  Passed, consume-CounterStep, running_jobs, check_concurrency-cases,
}

module _ (config : Config) (installation : String) where
  pub weekly_usage : ℕ → Tables → ℕ
  weekly_usage now_ms db =
      current_usage installation_week installation (weekly_window now_ms) db.counters

  pub daily_usage : ℕ → Tables → ℕ
  daily_usage now_ms db = current_usage global_day "all" (daily_window now_ms) db.counters

  -- Every limit that applies has room.
  pub record HasRoom (now_ms : ℕ) (db : Tables) : Type 0 where
    pub concurrent :
        applies config installation config.quota_installation_concurrent ≡ true
        → running_jobs config installation now_ms db
          < limit_value config.quota_installation_concurrent
    pub weekly :
        applies config installation config.quota_installation_weekly ≡ true
        → weekly_usage now_ms db < limit_value config.quota_installation_weekly
    pub daily :
        applies config installation config.quota_global_daily ≡ true
        → daily_usage now_ms db < limit_value config.quota_global_daily

  -- What a new job changes of what the limits count.
  pub record Counted (now_ms : ℕ) (db db' : Tables) : Type 0 where
    pub weekly :
        weekly_usage now_ms db'
        ≡ weekly_usage now_ms db
          + (if applies config installation config.quota_installation_weekly then 1 else 0)
    pub daily :
        daily_usage now_ms db'
        ≡ daily_usage now_ms db
          + (if applies config installation config.quota_global_daily then 1 else 0)
    pub running :
        running_jobs config installation now_ms db' ≤ running_jobs config installation now_ms db + 1

  -- The limit that a refusal names applies and is reached.
  abbrev pub Reached : ℕ → Tables → LimitCode → Type 0
  Reached now_ms db concurrency_limit =
      (applies config installation config.quota_installation_concurrent ≡ true)
      × (limit_value config.quota_installation_concurrent
          ≤ running_jobs config installation now_ms db)
  Reached now_ms db weekly_quota_exceeded =
      (applies config installation config.quota_installation_weekly ≡ true)
      × (limit_value config.quota_installation_weekly ≤ weekly_usage now_ms db)
  Reached now_ms db global_quota_exceeded =
      (applies config installation config.quota_global_daily ≡ true)
      × (limit_value config.quota_global_daily ≤ daily_usage now_ms db)
  Reached now_ms db rate_limited = ⊥

  running_jobs-insert_job :
      (policy id : String) (now_ms at : ℕ) (user : Option String) (input : JobInput) (db : Tables)
      → running_jobs config installation now_ms
          (insert_job config policy id at user none (some input) db).0
        ≤ running_jobs config installation now_ms db + 1
  unfolding running_jobs insert_job capture_body_policy count_running counts_as_running
  running_jobs-insert_job policy id now_ms at user input db = ground (
    arith,
    count_running-update_where installation (stale_cutoff config now_ms)
        (λ j. is_none j.body_policy_json) (λ j. record j { body_policy_json = some policy })
        (λ j t c. c) id (new_job db id at user none (some input) ∷ db.jobs),
  )

  counters-insert_job :
      (policy id : String) (at : ℕ) (user : Option String) (input : JobInput) (db : Tables)
      → (insert_job config policy id at user none (some input) db).0.counters ≡ db.counters
  unfolding insert_job
  counters-insert_job policy id at user input db = refl

module _ (config : Config) (policy id : String) (now_ms at : ℕ) (user : Option String)
    (input : JobInput) (db : Tables) where
  abbrev pub created : Tables × Tried LimitExceeded JobRow
  created = create_job_with_limits config policy id now_ms at user input db

  -- The tables in which the new row is inserted: the counters are counted, the jobs as before.
  abbrev pub Details : Type 0
  Details =
      (HasRoom config input.installation_id now_ms db
        × ((db₃ : Tables) × (db₃.jobs ≡ db.jobs)
            × (created ≡ (
              (insert_job config policy id at user none (some input) db₃).0,
              done (insert_job config policy id at user none (some input) db₃).1,
            )))
        × Counted config input.installation_id now_ms db created.0)
      ⊎ ((e : LimitExceeded) × (created ≡ (db, thrown e))
          × Reached config input.installation_id now_ms db e.code)

  scopes_differ :
      counter_key installation_week input.installation_id (weekly_window now_ms)
      ≢ counter_key global_day "all" (daily_window now_ms)
  scopes_differ p = cc (ap (λ k. k.scope) p)

  -- After the weekly counter's step.
  module _ (db₂ : Tables)
      (w : Passed
        (applies config input.installation_id config.quota_installation_weekly)
        (limit_value config.quota_installation_weekly)
        installation_week
        input.installation_id
        (weekly_window now_ms)
        db
        db₂) where
    daily_kept :
        current_usage global_day "all" (daily_window now_ms) db₂.counters
        ≡ current_usage global_day "all" (daily_window now_ms) db.counters
    daily_kept = w.other global_day "all" (daily_window now_ms) (λ x. scopes_differ (sym x))

    kept :
        (db₃ : Tables)
        → (insert_job config policy id at user none (some input) db₃).0.counters ≡ db₃.counters
    kept db₃ = counters-insert_job config input.installation_id policy id at user input db₃

    last_step :
        check_concurrency config now_ms input.installation_id db ≡ done db
        → (applies config input.installation_id config.quota_installation_concurrent ≡ true
            → running_jobs config input.installation_id now_ms db
              < limit_value config.quota_installation_concurrent)
        → consume_weekly config now_ms input.installation_id db ≡ done db₂
        → Details
    unfolding create_job_with_limits transaction consume_daily weekly_usage daily_usage running_jobs
    last_step p room q =
        elim (consume-CounterStep config input.installation_id global_day "all"
          (daily_window now_ms) config.quota_global_daily (daily_refusal now_ms) db₂) [
            | inr (e, t, r) ↦
                rw (p, q, t) (inr (e, refl, rw r.says (r.applies, rw daily_kept at (r.reached))))
            | inl (db₃, t, d) ↦
                rw (p, q, t)
                  (inl (
                    record {
                      concurrent = room;
                      weekly = w.below;
                      daily = λ h. rw daily_kept at (d.below h);
                    },
                    (db₃, d.jobs ∙ w.jobs, refl),
                    record {
                      weekly =
                          ap
                            (current_usage installation_week input.installation_id
                              (weekly_window now_ms))
                            (kept db₃)
                          ∙ d.other installation_week input.installation_id (weekly_window now_ms)
                              scopes_differ
                          ∙ w.after;
                      daily =
                          ap (current_usage global_day "all" (daily_window now_ms)) (kept db₃)
                          ∙ (rw daily_kept at d.after);
                      running = omega (
                        arith,
                        running_jobs-insert_job config input.installation_id policy id now_ms at
                            user input db₃,
                        ap (count_running input.installation_id (stale_cutoff config now_ms))
                            (d.jobs ∙ w.jobs),
                      );
                    },
                  ))
          ]

  pub create_job_with_limits-Details : Details
  unfolding create_job_with_limits transaction consume_weekly weekly_usage
  create_job_with_limits-Details =
      elim (check_concurrency-cases config input.installation_id now_ms db) [
        | inr (e, p, r) ↦ rw p (inr (e, refl, rw r.says (r.applies, r.reached)))
        | inl (p, room) ↦
            elim (consume-CounterStep config input.installation_id installation_week
              input.installation_id (weekly_window now_ms) config.quota_installation_weekly
              (weekly_refusal config now_ms) db) [
                | inr (e, q, r) ↦ rw (p, q) (inr (e, refl, rw r.says (r.applies, r.reached)))
                | inl (db₂, q, w) ↦ last_step db₂ w p room q
              ]
      ]

  abbrev pub Outcome : Type 0
  Outcome =
      (HasRoom config input.installation_id now_ms db
        × ((job : JobRow) × (created.1 ≡ done job))
        × Counted config input.installation_id now_ms db created.0)
      ⊎ ((e : LimitExceeded) × (created ≡ (db, thrown e))
          × Reached config input.installation_id now_ms db e.code)

  -- A new job is admitted when every limit that applies has room, and then the counters of the limits
  -- that apply have risen by one and at most one more job runs. Otherwise a limit that applies is
  -- reached, the refusal names it, and no table has changed, the counters included.
  pub create_job_with_limits-Outcome : Outcome
  create_job_with_limits-Outcome = elim create_job_with_limits-Details [
    | inl (room, (db₃, same_jobs, made), counted) ↦ inl (room, (_, ap (λ t. t.1) made), counted)
    | inr refused ↦ inr refused
  ]
