-- ===== src/Jobs/Records/Outcomes.antt =====
-- Whatever the records are, the job's row stays.
use standin_app_server.Prelude.{
  ℕ, ◌≡◌, inl, inr, refl, ap, sym, subst, ◌∙◌, Bool, List, [], ◌∷◌, if◌then◌else◌, String, Option,
  none, some,
}
use standin_app_server.Jobs.Rows.{Person, JobRow, find_job, same}
use standin_app_server.Jobs.Tables.{Tables, Tried, done, thrown, transaction, Tried-cases}
use standin_app_server.Jobs.Lifecycle.{delete_where}
use standin_app_server.Jobs.Records.{
  RefineContext, PersonSignals, person_row, insert_row, same_person, insert_candidates,
  insert_people, initialize_body_selections, finish_records, summary_set, complete_set, Records,
  Refusal, write_records, persist_analysis_records, is_given,
}
use standin_app_server.Jobs.Records.Stored.{finish-job, initialize-SameRows}

abbrev KeepsJobs : Tables → Tried Refusal Tables → Type 0
KeepsJobs db (done db') = db'.jobs ≡ db.jobs
KeepsJobs db (thrown e) = Unit

insert_people-KeepsJobs :
    (id : String) (q : Bool) (contexts : List RefineContext) (signals : List PersonSignals)
    (ps : List Person) (db : Tables)
    → KeepsJobs db (insert_people id q contexts signals ps db)
unfolding insert_people
insert_people-KeepsJobs id q contexts signals [] db = refl
insert_people-KeepsJobs id q contexts signals (p ∷ ps) db =
    elim (Tried-cases (insert_row same_person (person_row id q contexts signals p) db.people)) [
      | inr (e, refused) ↦ rw (refused, KeepsJobs) tt
      | inl (people, fits) ↦
          elim (Tried-cases (insert_candidates id p.person_index p.candidates db.candidates)) [
            | inr (e, refused) ↦ rw (fits, refused, KeepsJobs) tt
            | inl (candidates, fits') ↦
                rw (fits, fits', KeepsJobs)
                  (insert_people-KeepsJobs id q contexts signals ps
                    (record db { people = people; candidates = candidates }))
          ]
    ]

module _ (initial_body : String → Person → Bool → String) (id : String) (r : Records) (now : ℕ)
    (db : Tables) where
  abbrev pub kept_row : JobRow → JobRow
  kept_row j =
      summary_set r.result (if is_given j.quality_consent_id then r.cut_summary else none)
        (if r.complete then complete_set r.result now j else j)

  -- The transaction is refused and changes nothing, or it is done and the row is there.
  abbrev pub Persisted : JobRow → Tables × Tried Refusal (Unit {0}) → Type 0
  Persisted j (db', done u) = find_job id db'.jobs ≡ some (kept_row j)
  Persisted j (db', thrown e) = db' ≡ db

  pub persist-Persisted :
      (j : JobRow)
      → find_job id db.jobs ≡ some j
      → Persisted j (persist_analysis_records initial_body id r now db)
  unfolding persist_analysis_records transaction write_records
  persist-Persisted j here =
      let q = is_given j.quality_consent_id in
      let db₀ : Tables = record db {
        candidates = delete_where (λ c. same c.job_id id) db.candidates;
        people = delete_where (λ p. same p.job_id id) db.people;
      } in
      let keeps = insert_people-KeepsJobs id q r.contexts r.signals r.result.persons db₀ in
      elim (Tried-cases (insert_people id q r.contexts r.signals r.result.persons db₀)) [
        | inr (e, refused) ↦
            let out : persist_analysis_records initial_body id r now db ≡ (db, thrown e) =
              rw (here, refused) in
            subst (Persisted j) (sym out) refl
        | inl (db₁, fits) ↦
            let same_jobs : db₁.jobs ≡ db.jobs = rw (fits, KeepsJobs) at keeps in
            let summary : Option String = if q then r.cut_summary else none in
            let db₂ : Tables = initialize_body_selections initial_body id r.result db₁ in
            let out : persist_analysis_records initial_body id r now db
                ≡ (finish_records id r.result summary r.complete now db₂, done tt) =
              rw (here, fits) in
            subst (Persisted j) (sym out) (
              finish-job initial_body id r now db summary db₂ j (
                ap (find_job id)
                  ((initialize-SameRows initial_body id r now db db₁).jobs ∙ same_jobs)
                ∙ here))
      ]
