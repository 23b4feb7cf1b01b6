-- ===== src/Jobs/Records/Stored.antt =====
-- The whole transaction: what it leaves for a job that is there.
use standin_app_server.Prelude.{
  ℕ, ◌≡◌, ◌≢◌, refl, ap, ◌∙◌, Bool, true, false, List, [], ◌∷◌, ◌++◌, map, arith, if◌then◌else◌,
  String, Option, none, some, All,
}
use standin_app_server.Jobs.Rows.{Person, JobRow, find_job, update_where, same}
use standin_app_server.Jobs.Rows.Laws.{find_job-update_where}
use standin_app_server.Jobs.Tables.{Tables, done, transaction}
use standin_app_server.Jobs.Lifecycle.{delete_where}
use standin_app_server.Jobs.Lifecycle.Deletion.{select_where}
use standin_app_server.Jobs.Records.{
  initialize_body_selections, finish_records, complete_set, summary_set, Records, write_records,
  persist_analysis_records, is_given, any_of,
}
use standin_app_server.Jobs.Records.Laws.{
  HasDistinctPeople, candidates_of, row_of, insert_people-done, any_of-delete, person_test,
  person_candidates,
}
use standin_app_server.Jobs.Records.Written.{
  stored_person, stored_candidates, rows-stored, candidates-stored, body_of,
  initialize-other_bodies, initialize-keeps_bodies,
}
use standin_app_server.Jobs.Records.Replaced.{
  select-replaced, select-replaced_other, people-own, candidates-own,
}

-- The rows of a job in the two tables, and its own row, after the records of an analysis are written;
-- every other job's rows are as before.
pub record IsStored (id : String) (r : Records) (quality_allowed : Bool) (now : ℕ) (j : JobRow)
    (db db' : Tables) : Type 0 where
  pub people :
      select_where (λ p. same p.job_id id) db'.people
      ≡ map (stored_person id quality_allowed r.contexts r.signals) r.result.persons
  pub candidates :
      select_where (λ c. same c.job_id id) db'.candidates ≡ stored_candidates id r.result.persons
  pub job :
      find_job id db'.jobs
      ≡ some (
          summary_set r.result
            (if quality_allowed then r.cut_summary else none)
            (if r.complete then complete_set r.result now j else j))
  pub other_people :
      (other : String)
      → other ≢ id
      → select_where (λ p. same p.job_id other) db'.people
        ≡ select_where (λ p. same p.job_id other) db.people
  pub other_candidates :
      (other : String)
      → other ≢ id
      → select_where (λ c. same c.job_id other) db'.candidates
        ≡ select_where (λ c. same c.job_id other) db.candidates
  pub other_jobs : (other : String) → other ≢ id → find_job other db'.jobs ≡ find_job other db.jobs
  pub other_bodies :
      (other : String)
      → other ≢ id
      → select_where (λ b. same b.job_id other) db'.body_selections
        ≡ select_where (λ b. same b.job_id other) db.body_selections
  pub kept_bodies :
      (name : String) (i : ℕ) (value : String)
      → body_of name i db.body_selections ≡ some value
      → body_of name i db'.body_selections ≡ some value
  pub rest :
      (db'.counters ≡ db.counters)
      × (db'.outbox ≡ db.outbox)
      × (db'.selections ≡ db.selections)
      × (db'.others ≡ db.others)
      × (db'.consents ≡ db.consents)

module _ (initial_body : String → Person → Bool → String) (id : String) (r : Records) (now : ℕ)
    (db : Tables) where
  pub record SameRows (db₁ db₂ : Tables) : Type 0 where
    pub jobs : db₁.jobs ≡ db₂.jobs
    pub people : db₁.people ≡ db₂.people
    pub candidates : db₁.candidates ≡ db₂.candidates
    pub counters : db₁.counters ≡ db₂.counters
    pub outbox : db₁.outbox ≡ db₂.outbox
    pub selections : db₁.selections ≡ db₂.selections
    pub others : db₁.others ≡ db₂.others
    pub consents : db₁.consents ≡ db₂.consents

  pub initialize-SameRows :
      (db : Tables) → SameRows (initialize_body_selections initial_body id r.result db) db
  unfolding initialize_body_selections
  initialize-SameRows db = record {
    jobs = ground arith;
    people = ground arith;
    candidates = ground arith;
    counters = ground arith;
    outbox = ground arith;
    selections = ground arith;
    others = ground arith;
    consents = ground arith;
  }

  pub finish-job :
      (summary : Option String) (db : Tables) (j : JobRow)
      → find_job id db.jobs ≡ some j
      → find_job id (finish_records id r.result summary r.complete now db).jobs
        ≡ some
            (summary_set r.result summary (if r.complete then complete_set r.result now j else j))
  unfolding finish_records
  finish-job summary db j here =
      let kept =
        find_job-update_where (complete_set r.result now) (λ k. refl) id id (λ k. true) db.jobs in
      let last =
        find_job-update_where (summary_set r.result summary) (λ k. refl) id id (λ k. true)
          (if r.complete
            then (update_where id (λ k. true) (complete_set r.result now) db.jobs).0
            else db.jobs) in
      ground (arith, here, kept, last)

  finish-job_other :
      (summary : Option String) (db : Tables) (other : String)
      → other ≢ id
      → find_job other (finish_records id r.result summary r.complete now db).jobs
        ≡ find_job other db.jobs
  unfolding finish_records
  finish-job_other summary db other n =
      let kept =
        find_job-update_where (complete_set r.result now) (λ k. refl) id other (λ k. true)
          db.jobs in
      let last =
        find_job-update_where (summary_set r.result summary) (λ k. refl) id other (λ k. true)
          (if r.complete
            then (update_where id (λ k. true) (complete_set r.result now) db.jobs).0
            else db.jobs) in
      ground (arith, n, kept, last)

  finish-IsStored :
      (quality_allowed : Bool) (j : JobRow)
      → find_job id db.jobs ≡ some j
      → IsStored id r quality_allowed now j db (
          finish_records id r.result
            (if quality_allowed then r.cut_summary else none)
            r.complete
            now
            (initialize_body_selections initial_body id r.result (record db {
              people =
                  delete_where (λ p. same p.job_id id) db.people
                  ++ map (row_of id quality_allowed r.contexts r.signals) r.result.persons;
              candidates =
                  delete_where (λ c. same c.job_id id) db.candidates
                  ++ candidates_of id r.result.persons;
            })))
  unfolding finish_records row_of
  finish-IsStored quality_allowed j here =
      let db₀ : Tables = record db {
        people =
            delete_where (λ p. same p.job_id id) db.people
            ++ map (row_of id quality_allowed r.contexts r.signals) r.result.persons;
        candidates =
            delete_where (λ c. same c.job_id id) db.candidates ++ candidates_of id r.result.persons;
      } in
      let db₁ : Tables = initialize_body_selections initial_body id r.result db₀ in
      let kept = initialize-SameRows db₀ in
      let own = people-own id quality_allowed r.contexts r.signals r.result.persons in
      let summary : Option String = if quality_allowed then r.cut_summary else none in
      record {
        people =
            ap (select_where (λ p. same p.job_id id)) kept.people
            ∙ (select-replaced (λ p. p.job_id) id db.people _ own
                ∙ rows-stored id quality_allowed r.contexts r.signals r.result.persons);
        candidates =
            ap (select_where (λ c. same c.job_id id)) kept.candidates
            ∙ (select-replaced (λ c. c.job_id) id db.candidates _
                  (candidates-own id r.result.persons)
                ∙ candidates-stored id r.result.persons);
        job = finish-job summary db₁ j (ap (find_job id) kept.jobs ∙ here);
        other_people = λ other n.
            ap (select_where (λ p. same p.job_id other)) kept.people
            ∙ select-replaced_other (λ p. p.job_id) id other db.people _ n own;
        other_candidates = λ other n.
            ap (select_where (λ c. same c.job_id other)) kept.candidates
            ∙ select-replaced_other (λ c. c.job_id) id other db.candidates _ n
                (candidates-own id r.result.persons);
        other_jobs =
            λ other n. finish-job_other summary db₁ other n ∙ ap (find_job other) kept.jobs;
        other_bodies = initialize-other_bodies initial_body id r.result db₀;
        kept_bodies = initialize-keeps_bodies initial_body id r.result db₀;
        rest = (kept.counters, kept.outbox, kept.selections, kept.others, kept.consents);
      }

  -- The records of a job that is there replace those that it had: its people and candidates are
  -- exactly those of the result, with quality signals and raw scores under a given consent, and with
  -- neither without one; its row has the metadata, and the result when the analysis completes it. No
  -- row of another job changes, no body that was selected before does, and neither do the counters, the
  -- outbox and the confirmed selections. The people of the result and each person's candidates have
  -- different keys.
  pub persist-IsStored :
      (j : JobRow)
      → find_job id db.jobs ≡ some j
      → HasDistinctPeople r.result.persons
      → ((persist_analysis_records initial_body id r now db).1 ≡ done tt)
        × IsStored id r
            (is_given j.quality_consent_id)
            now
            j
            db
            (persist_analysis_records initial_body id r now db).0
  unfolding persist_analysis_records transaction write_records person_test person_candidates row_of
  persist-IsStored j here distinct =
      rw
        (
          here,
          insert_people-done id (is_given j.quality_consent_id) r.contexts r.signals
              r.result.persons
              (record db {
                candidates = delete_where (λ c. same c.job_id id) db.candidates;
                people = delete_where (λ p. same p.job_id id) db.people;
              })
              distinct (no_people r.result.persons) (no_candidates r.result.persons),
        )
        (refl, finish-IsStored (is_given j.quality_consent_id) j here)
    where
      no_people :
          (ps : List Person)
          → All
              (λ q.
                any_of
                  (person_test id q.person_index)
                  (delete_where (λ p. same p.job_id id) db.people)
                ≡ false)
              ps
      no_people [] = tt
      no_people (p ∷ ps) = (any_of-delete _ _ db.people (λ a t. ground (arith, t)), no_people ps)

      no_candidates :
          (ps : List Person)
          → All
              (λ q.
                any_of
                  (person_candidates id q.person_index)
                  (delete_where (λ c. same c.job_id id) db.candidates)
                ≡ false)
              ps
      no_candidates [] = tt
      no_candidates (p ∷ ps) =
          (any_of-delete _ _ db.candidates (λ a t. ground (arith, t)), no_candidates ps)
