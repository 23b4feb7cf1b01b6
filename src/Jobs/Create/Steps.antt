-- ===== src/Jobs/Create/Steps.antt =====
-- What one step of createJobWithLimits checks and counts: a counter, or the number of running jobs.
use standin_app_server.Prelude.{
  ℕ, ◌+◌, ◌≤◌, ◌<◌, ◌≡◌, ◌≢◌, ◌⊎◌, ◌∙◌, inl, inr, refl, Bool, true, arith, if◌then◌else◌, leb,
  leb→le, String, Bool-cases,
}
use standin_app_server.Limits.Policy.{
  UsageWindow, Limit, limit_value, LimitExceeded, LimitCode, concurrency_limit,
}
use standin_app_server.Limits.Counters.{UsageScope, try_consume, current_usage, counter_key}
use standin_app_server.Limits.Counters.Usage.{try_consume_lem}
use standin_app_server.Jobs.Rows.{count_running}
use standin_app_server.Jobs.Tables.{Tables, Config, Tried, done, thrown}
use standin_app_server.Jobs.Create.{
  stale_cutoff, applies, check_concurrency, consume, pos_of_applies,
}

-- A counter step that lets the request through: the counter of its window rises by one, if the limit
-- applies, and nothing else changes.
pub record Passed (applied : Bool) (limit : ℕ) (scope : UsageScope) (subject : String)
    (window : UsageWindow) (db db' : Tables) : Type 0 where
  pub jobs : db'.jobs ≡ db.jobs
  pub below : applied ≡ true → current_usage scope subject window db.counters < limit
  pub after :
      current_usage scope subject window db'.counters
      ≡ current_usage scope subject window db.counters + (if applied then 1 else 0)
  pub other :
      (scope' : UsageScope) (subject' : String) (window' : UsageWindow)
      → counter_key scope' subject' window' ≢ counter_key scope subject window
      → current_usage scope' subject' window' db'.counters
        ≡ current_usage scope' subject' window' db.counters

-- Or it refuses, for a limit that applies and is used up.
pub record Refused (applied : Bool) (limit used : ℕ) (code : LimitCode) (e : LimitExceeded)
    : Type 0 where
  pub says : e.code ≡ code
  pub applies : applied ≡ true
  pub reached : limit ≤ used

abbrev pub CounterStep :
    (applied : Bool) (limit : ℕ) (scope : UsageScope) (subject : String) (window : UsageWindow)
    → Tables
    → LimitCode
    → Tried LimitExceeded Tables
    → Type 0
CounterStep applied limit scope subject window db code t =
    ((db' : Tables) × (t ≡ done db') × Passed applied limit scope subject window db db')
    ⊎ ((e : LimitExceeded) × (t ≡ thrown e)
        × Refused applied limit (current_usage scope subject window db.counters) code e)

module _ (config : Config) (installation : String) where
  pub consume-CounterStep :
      (scope : UsageScope) (subject : String) (window : UsageWindow) (limit : Limit)
      (refusal : LimitExceeded) (db : Tables)
      → CounterStep
          (applies config installation limit)
          (limit_value limit)
          scope
          subject
          window
          db
          refusal.code
          (consume config installation scope subject window limit refusal db)
  unfolding consume
  consume-CounterStep scope subject window limit refusal db =
      let used = try_consume scope subject window (limit_value limit) db.counters in
      elim (Bool-cases (applies config installation limit)) [
        | inr off ↦ rw off (
            inl (
              db,
              refl,
              record { jobs = refl; below = λ h. cc; after = omega arith; other = λ s j w h. refl },
            ))
        | inl on ↦
            let (grants, after, other) =
              try_consume_lem scope subject window (limit_value limit) db.counters
                (pos_of_applies config installation limit on) in
            elim (Bool-cases used.1) [
              | inl ok ↦
                  rw (on, ok)
                    (inl (
                      record db { counters = used.0 },
                      refl,
                      record {
                        jobs = refl;
                        below = λ h. grants.0 ok;
                        after = after ∙ rw ok;
                        other = other;
                      },
                    ))
              | inr full ↦
                  rw (on, full)
                    (inr (
                      refusal,
                      refl,
                      record { says = refl; applies = refl; reached = ground arith },
                    ))
            ]
      ]

  unfoldable pub running_jobs : ℕ → Tables → ℕ
  running_jobs now_ms db = count_running installation (stale_cutoff config now_ms) db.jobs

  pub check_concurrency-cases :
      (now_ms : ℕ) (db : Tables)
      → ((check_concurrency config now_ms installation db ≡ done db)
          × (applies config installation config.quota_installation_concurrent ≡ true
              → running_jobs now_ms db < limit_value config.quota_installation_concurrent))
        ⊎ ((e : LimitExceeded) × (check_concurrency config now_ms installation db ≡ thrown e)
            × Refused
                (applies config installation config.quota_installation_concurrent)
                (limit_value config.quota_installation_concurrent)
                (running_jobs now_ms db)
                concurrency_limit
                e)
  unfolding check_concurrency running_jobs
  check_concurrency-cases now_ms db =
      elim (Bool-cases (applies config installation config.quota_installation_concurrent)) [
        | inr off ↦ rw off (inl (refl, λ h. cc))
        | inl on ↦
            elim (Bool-cases (
              leb (limit_value config.quota_installation_concurrent)
                (count_running installation (stale_cutoff config now_ms) db.jobs))) [
                  | inr few ↦ rw (on, few) (inl (refl, λ h. ground arith))
                  | inl many ↦
                      rw (on, many)
                        (inr (
                          _,
                          refl,
                          record { says = refl; applies = refl; reached = leb→le _ _ many },
                        ))
                ]
      ]
