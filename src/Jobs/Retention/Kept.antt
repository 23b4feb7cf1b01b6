-- ===== src/Jobs/Retention/Kept.antt =====
-- A job that the sweep leaves loses nothing.
use standin_app_server.Prelude.{
  ◌≤◌, ℕ, ◌≤◌, ◌≡◌, refl, Bool, true, false, List, [], ◌∷◌, String, Option, none, some, same, All,
  ◌∙◌, arith, subst, sym, All-weaken, Bool-cases, inl, inr,
}
use standin_app_server.Jobs.Rows.{JobRow, find_job, is_some_of, is_none}
use standin_app_server.Jobs.Tables.{Tables, OtherRow}
use standin_app_server.Jobs.Lifecycle.{delete_where, delete_jobs, is_chosen}
use standin_app_server.Jobs.Lifecycle.Deletion.{select_where, select-delete_apart, HasUniqueIds}
use standin_app_server.Jobs.Retention.{
  Stored, delete_selected, chosen_by, is_past_retention, is_past_basic, is_older, is_old_event,
  delete_expired_rows,
}
use standin_app_server.Jobs.Retention.Purged.{chosen_by-find, find_job-delete}
use standin_app_server.Jobs.Retention.Expired.{has_expired, delete_selected-HasUniqueIds}

-- What a table holds of a job is what it held.
pub record KeepsRows (id : String) (db db' : Tables) : Type 0 where
  pub job : find_job id db'.jobs ≡ find_job id db.jobs
  pub outbox :
      select_where (λ r. same r.job_id id) db'.outbox
      ≡ select_where (λ r. same r.job_id id) db.outbox
  pub people :
      select_where (λ r. same r.job_id id) db'.people
      ≡ select_where (λ r. same r.job_id id) db.people
  pub candidates :
      select_where (λ r. same r.job_id id) db'.candidates
      ≡ select_where (λ r. same r.job_id id) db.candidates
  pub selections :
      select_where (λ r. same r.job_id id) db'.selections
      ≡ select_where (λ r. same r.job_id id) db.selections
  pub body_selections :
      select_where (λ r. same r.job_id id) db'.body_selections
      ≡ select_where (λ r. same r.job_id id) db.body_selections
  pub others :
      select_where (λ r. is_some_of r.job_id id) db'.others
      ≡ select_where (λ r. is_some_of r.job_id id) db.others

KeepsRows-trans :
    (id : String) (a b c : Tables) → KeepsRows id a b → KeepsRows id b c → KeepsRows id a c
KeepsRows-trans id a b c h k = record {
  job = k.job ∙ h.job;
  outbox = k.outbox ∙ h.outbox;
  people = k.people ∙ h.people;
  candidates = k.candidates ∙ h.candidates;
  selections = k.selections ∙ h.selections;
  body_selections = k.body_selections ∙ h.body_selections;
  others = k.others ∙ h.others;
}

same-chosen :
    (chosen : String → Bool) (id a : String)
    → chosen id ≡ false
    → same a id ≡ true
    → chosen a ≡ false
same-chosen chosen id a out e = ground (arith, out)

some-chosen :
    (chosen : String → Bool) (id : String) (a : Option String)
    → chosen id ≡ false
    → is_some_of a id ≡ true
    → is_chosen chosen a ≡ false
some-chosen chosen id none out e = refl
some-chosen chosen id (some a) out e = same-chosen chosen id a out e

delete_jobs-KeepsRows :
    (chosen : String → Bool) (id : String) (db : Tables)
    → chosen id ≡ false
    → KeepsRows id db (delete_jobs chosen db)
unfolding delete_jobs
delete_jobs-KeepsRows chosen id db out = record {
  job = find_job-delete chosen id db.jobs out;
  outbox = select-delete_apart _ _ db.outbox (λ r. same-chosen chosen id r.job_id out);
  people = select-delete_apart _ _ db.people (λ r. same-chosen chosen id r.job_id out);
  candidates = select-delete_apart _ _ db.candidates (λ r. same-chosen chosen id r.job_id out);
  selections = select-delete_apart _ _ db.selections (λ r. same-chosen chosen id r.job_id out);
  body_selections =
      select-delete_apart _ _ db.body_selections (λ r. same-chosen chosen id r.job_id out);
  others = select-delete_apart _ _ db.others (λ r. some-chosen chosen id r.job_id out);
}

module _ (test : JobRow → Bool) (db : Tables) (u : HasUniqueIds db.jobs) where
  delete_selected-KeepsRows :
      (id : String) (j : JobRow)
      → find_job id db.jobs ≡ some j
      → test j ≡ false
      → KeepsRows id db (delete_selected test db)
  unfolding delete_selected
  delete_selected-KeepsRows id j here stays =
      delete_jobs-KeepsRows (chosen_by test db.jobs) id db
        (rw (chosen_by-find test db.jobs id u, here) stays)

-- The rows of a job among those of the other tables.
abbrev pub others_of : String → Tables → List OtherRow
others_of id db = select_where (λ r. is_some_of r.job_id id) db.others

All-select :
    {A : Type 0} (P : A → Type 0) (keep : A → Bool) (rows : List A)
    → All P (select_where keep rows)
    → All (λ a. keep a ≡ true → P a) rows
unfolding select_where
All-select P keep [] h = tt
All-select P keep (a ∷ rows) h = elim (Bool-cases (keep a)) [
  | inl here ↦ let (p, ps) = rw here at h in (λ e. p, All-select P keep rows ps)
  | inr out ↦ (λ e. cc, All-select P keep rows (rw out at h))
]

select-delete_held :
    {A : Type 0} (keep test : A → Bool) (rows : List A)
    → All (λ a. keep a ≡ true → test a ≡ false) rows
    → select_where keep (delete_where test rows) ≡ select_where keep rows
unfolding select_where delete_where
select-delete_held keep test [] h = refl
select-delete_held keep test (a ∷ rows) (h, hs) =
    ground (arith, h, select-delete_held keep test rows hs)

not_old :
    (now : ℕ) (id : String) (j : JobRow) (r : OtherRow)
    → is_none j.installation_id ≡ false
    → has_expired now j ≡ false
    → (is_some_of r.job_id id ≡ true → j.created_at ≤ r.occurred_at)
    → is_some_of r.job_id id ≡ true
    → is_old_event now r ≡ false
unfolding is_old_event is_older
not_old now id j r owned stays later h = ground (arith, later h)

-- The sweep and a job of an installation, with its rows, that has not expired.
module _ (now : ℕ) (id : String) (s : Stored) (j : JobRow) (u : HasUniqueIds s.tables.jobs)
    (here : find_job id s.tables.jobs ≡ some j) (owned : is_none j.installation_id ≡ false)
    (stays : has_expired now j ≡ false) where
  young : is_past_retention now j ≡ false
  unfolding is_past_retention is_older
  young = ground (arith, stays)

  basic : is_past_basic now j ≡ false
  unfolding is_past_basic is_older
  basic = ground (arith, stays)

  abbrev after_retention : Tables
  after_retention = delete_selected (is_past_retention now) s.tables

  after_retention-KeepsRows : KeepsRows id s.tables after_retention
  after_retention-KeepsRows =
      delete_selected-KeepsRows (is_past_retention now) s.tables u id j here young

  after_jobs-KeepsRows : KeepsRows id s.tables (delete_selected (is_past_basic now) after_retention)
  after_jobs-KeepsRows = KeepsRows-trans id s.tables after_retention _ after_retention-KeepsRows (
      delete_selected-KeepsRows (is_past_basic now) after_retention
        (delete_selected-HasUniqueIds (is_past_retention now) s.tables u) id j
        (after_retention-KeepsRows.job ∙ here) basic)

  -- A job of an installation that has not expired keeps its row and all its rows in the other tables,
  -- where ids of jobs are unique and no row of the job is older than the job.
  pub delete_expired_rows-KeepsRows :
      All (λ r. j.created_at ≤ r.occurred_at) (others_of id s.tables)
      → KeepsRows id s.tables (delete_expired_rows now s).tables
  unfolding delete_expired_rows
  delete_expired_rows-KeepsRows later =
      let k = after_jobs-KeepsRows in
      let events = delete_selected (is_past_basic now) after_retention in
      record {
        job = k.job;
        outbox = k.outbox;
        people = k.people;
        candidates = k.candidates;
        selections = k.selections;
        body_selections = k.body_selections;
        others =
            select-delete_held _ (is_old_event now) events.others (
              All-weaken _ _ events.others (λ r. not_old now id j r owned stays)
                (All-select _ _ events.others
                  (subst (All (λ r. j.created_at ≤ r.occurred_at)) (sym k.others) later)))
            ∙ k.others;
      }
