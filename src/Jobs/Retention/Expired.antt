-- ===== src/Jobs/Retention/Expired.antt =====
-- The sweep of what is too old: which jobs go, and what is left of the other tables.
use standin_app_server.Prelude.{
  ltb, ◌+◌, ◌*◌, ◌≤◌, ite, Option-cases, ◌⊎◌, ℕ, ◌≤◌, ◌≡◌, refl, Bool, true, false, not, ◌&&◌, ◌||◌,
  List, [], ◌∷◌, if◌then◌else◌, Option, none, some, fun_ext, All, ◌∙◌, arith, subst, sym, ap,
  Bool-cases, inl, inr,
}
use standin_app_server.Limits.Policy.{day_ms}
use standin_app_server.Consents.{Receipt}
use standin_app_server.Jobs.Rows.{JobRow, is_none}
use standin_app_server.Jobs.Tables.{
  OtherTable, analytics_events, export_events, admin_access_audit, Tables, OtherRow,
}
use standin_app_server.Jobs.Lifecycle.{delete_where, delete_jobs}
use standin_app_server.Jobs.Lifecycle.Deletion.{select_where, HasUniqueIds}
use standin_app_server.Jobs.Retention.{
  is_event_log, Stored, AcquisitionRow, delete_selected, is_past_retention, is_past_basic, is_older,
  is_some_older, is_old_event, retention_days, forget_acquisition, forget_acquisitions,
  delete_expired_rows,
}
use standin_app_server.Jobs.Retention.Purged.{
  IsPurged, delete-IsPurged, delete-delete, delete_where-agree, chosen_by-agrees,
  HasUniqueIds-delete,
}

-- Under a consent a job of an installation is kept for 365 days, without one for 90.
abbrev pub days_kept : JobRow → ℕ
days_kept j = if is_none j.quality_consent_id then 90 else 365

abbrev pub has_expired : ℕ → JobRow → Bool
has_expired now j = not (is_none j.installation_id) && ltb (j.created_at + days_kept j * day_ms) now

past_is_expired :
    (now : ℕ) (j : JobRow) → (is_past_retention now j || is_past_basic now j) ≡ has_expired now j
unfolding is_past_retention is_past_basic is_older
past_is_expired now j = ground arith

module _ (test : JobRow → Bool) (db : Tables) (u : HasUniqueIds db.jobs) where
  delete_selected-jobs : (delete_selected test db).jobs ≡ delete_where test db.jobs
  unfolding delete_selected delete_jobs
  delete_selected-jobs = delete_where-agree _ test db.jobs (chosen_by-agrees test db.jobs u)

  pub delete_selected-HasUniqueIds : HasUniqueIds (delete_selected test db).jobs
  delete_selected-HasUniqueIds =
      subst HasUniqueIds (sym delete_selected-jobs) (HasUniqueIds-delete test db.jobs u)

delete_expired_rows-jobs :
    (now : ℕ) (s : Stored)
    → HasUniqueIds s.tables.jobs
    → IsPurged (has_expired now) s.tables.jobs (delete_expired_rows now s).tables.jobs
unfolding delete_expired_rows
delete_expired_rows-jobs now s u =
    let after = delete_selected (is_past_retention now) s.tables in
    let u' = delete_selected-HasUniqueIds (is_past_retention now) s.tables u in
    delete_selected-jobs (is_past_basic now) after u'
    ∙ ap (delete_where (is_past_basic now))
        (delete_selected-jobs (is_past_retention now) s.tables u)
    ∙ delete-delete (is_past_retention now) (is_past_basic now) s.tables.jobs
    ∙ ap (λ (test : JobRow → Bool). select_where (λ j. not (test j)) s.tables.jobs)
        (fun_ext (past_is_expired now))

-- A receipt of a consent that ended more than 365 days ago.
abbrev pub ended_long_ago : ℕ → Option ℕ → Bool
ended_long_ago now none = false
ended_long_ago now (some ended_at) = ltb (ended_at + 365 * day_ms) now

older_ended :
    (now : ℕ) (r : Receipt)
    → is_some_older retention_days now r.ended_at ≡ ended_long_ago now r.ended_at
unfolding is_older
older_ended now r = by_time r.ended_at
  where
    by_time : (o : Option ℕ) → is_some_older retention_days now o ≡ ended_long_ago now o
    by_time none = refl
    by_time (some ended_at) = refl

-- What came in with an installation is known for 90 days after the consent to it.
abbrev pub KeepsAcquisition : ℕ → Option ℕ → AcquisitionRow → Type 0
KeepsAcquisition now none r = Unit
KeepsAcquisition now (some consented_at) r =
    (now ≤ consented_at + 90 * day_ms)
    ⊎ ((r.acquisition_creative ≡ none) × (r.acquisition_version ≡ none))

forget_acquisition-Keeps :
    (now : ℕ) (r : AcquisitionRow)
    → KeepsAcquisition now
        (forget_acquisition now r).acquisition_consented_at
        (forget_acquisition now r)
unfolding forget_acquisition is_older
forget_acquisition-Keeps now r = elim (Option-cases r.acquisition_consented_at) [
  | inl never ↦ rw never tt
  | inr (t, given) ↦ elim (Bool-cases (ltb (t + 90 * day_ms) now)) [
    | inl old ↦ rw (given, old) (inr (refl, refl))
    | inr new ↦ rw (given, new) (inl (ground arith))
  ]
]

forget_acquisitions-Keeps :
    (now : ℕ) (rs : List AcquisitionRow)
    → All (λ r. KeepsAcquisition now r.acquisition_consented_at r) (forget_acquisitions now rs)
unfolding forget_acquisitions
forget_acquisitions-Keeps now [] = tt
forget_acquisitions-Keeps now (r ∷ rs) =
    (forget_acquisition-Keeps now r, forget_acquisitions-Keeps now rs)

unfoldable pub OtherTable-discrete : Discrete OtherTable
OtherTable-discrete = hlevel

abbrev pub rows_of : OtherTable → List OtherRow → List OtherRow
rows_of t rows = select_where (λ r. ite (OtherTable-discrete r.table t) true false) rows

recent_rows :
    (now : ℕ) (t : OtherTable) (rows : List OtherRow)
    → is_event_log t ≡ true
    → All
        (λ r. now ≤ r.occurred_at + 365 * day_ms)
        (rows_of t (delete_where (is_old_event now) rows))
unfolding select_where delete_where is_old_event is_older
recent_rows now t [] log = tt
recent_rows now t (r ∷ rows) log = ground (arith, log, recent_rows now t rows log)

-- What the sweep leaves: the jobs, the logs of events, the receipts and the acquisitions.
pub record IsSwept (now : ℕ) (s s' : Stored) : Type 0 where
  pub jobs : IsPurged (has_expired now) s.tables.jobs s'.tables.jobs
  pub analytics :
      All (λ r. now ≤ r.occurred_at + 365 * day_ms) (rows_of analytics_events s'.tables.others)
  pub exports :
      All (λ r. now ≤ r.occurred_at + 365 * day_ms) (rows_of export_events s'.tables.others)
  pub audit :
      All (λ r. now ≤ r.occurred_at + 365 * day_ms) (rows_of admin_access_audit s'.tables.others)
  pub receipts : IsPurged (λ r. ended_long_ago now r.ended_at) s.receipts s'.receipts
  pub acquisitions : All (λ r. KeepsAcquisition now r.acquisition_consented_at r) s'.installations
  pub counters : s'.tables.counters ≡ s.tables.counters
  pub body_preferences : s'.body_preferences ≡ s.body_preferences

-- The sweep deletes exactly the jobs of installations that are older than 365 days, or than 90 days
-- without a consent, where ids of jobs are unique. No event in a log that is older than 365 days is
-- left, the receipts are exactly those that did not end so long ago, and no acquisition stays whose
-- consent is older than 90 days; the counters and the preferences of bodies are as before.
pub delete_expired_rows-IsSwept :
    (now : ℕ) (s : Stored) → HasUniqueIds s.tables.jobs → IsSwept now s (delete_expired_rows now s)
unfolding delete_expired_rows delete_selected delete_jobs is_event_log
delete_expired_rows-IsSwept now s u = record {
  jobs = delete_expired_rows-jobs now s u;
  analytics = recent_rows now analytics_events _ refl;
  exports = recent_rows now export_events _ refl;
  audit = recent_rows now admin_access_audit _ refl;
  receipts = rw (fun_ext (older_ended now)) (delete-IsPurged _ s.receipts);
  acquisitions = forget_acquisitions-Keeps now s.installations;
  counters = refl;
  body_preferences = refl;
}
