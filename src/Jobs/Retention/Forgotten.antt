-- ===== src/Jobs/Retention/Forgotten.antt =====
-- What is left after the deletion of an installation's data: exactly what does not belong to it.
use standin_app_server.Prelude.{
  ◌≡◌, ◌&&◌, false, Option, none, refl, Bool, ◌||◌, String, same, fun_ext, All, ◌∙◌,
}
use standin_app_server.Jobs.Rows.{is_some_of, OutboxRow, find_job}
use standin_app_server.Limits.Counters.{
  UsageScope, Counter, installation_week, global_day, ip_register, ip_analyze, semantic_search,
  hand_preview, semantic_model_preview,
}
use standin_app_server.Jobs.Tables.{
  OtherTable, body_mutations, export_events, job_feedback, analytics_events, admin_access_audit,
  refined_artifacts, Tables, PersonRow, CandidateRow, SelectionRow, BodySelectionRow, OtherRow,
}
use standin_app_server.Jobs.Lifecycle.{delete_jobs, is_chosen}
use standin_app_server.Jobs.Lifecycle.Deletion.{HasUniqueIds}
use standin_app_server.Jobs.Retention.{
  Stored, delete_selected, chosen_by, is_of_installation, is_scoped_to, is_counter_of,
  is_installation_scoped, counts_installation, delete_installation_data,
}
use standin_app_server.Jobs.Retention.Purged.{
  All-delete, IsPurged, delete-IsPurged, delete-delete, delete_where-agree, holds_of,
  chosen_by-find, chosen_by-agrees,
}

-- The job of an id is the installation's.
abbrev pub is_its_job : String → Tables → String → Bool
is_its_job installation db id = holds_of (is_of_installation installation) (find_job id db.jobs)

-- Whom a counter of a scope counts, as the table usage_counters describes it.
pub data Subject : Type 0 where
  an_installation everyone an_address : Subject

abbrev pub subject_of : UsageScope → Subject
subject_of global_day = everyone
subject_of ip_register = an_address
subject_of ip_analyze = an_address
subject_of installation_week = an_installation
subject_of semantic_search = an_installation
subject_of hand_preview = an_installation
subject_of semantic_model_preview = an_installation

abbrev pub counts_it : String → Counter → Bool
counts_it installation c = elim (subject_of c.key.scope) [
  | an_installation ↦ same c.key.subject installation
  | everyone ↦ false
  | an_address ↦ false
]

-- The table refined_artifacts has no column installation_id.
abbrev pub HasColumns : OtherTable → Option String → Type 0
HasColumns refined_artifacts installation_id = installation_id ≡ none
HasColumns t installation_id = Unit

pub record IsForgotten (installation : String) (s s' : Stored) : Type 0 where
  pub jobs : IsPurged (is_of_installation installation) s.tables.jobs s'.tables.jobs
  pub outbox :
      IsPurged
        (λ (r : OutboxRow). is_its_job installation s.tables r.job_id)
        s.tables.outbox
        s'.tables.outbox
  pub people :
      IsPurged
        (λ (r : PersonRow). is_its_job installation s.tables r.job_id)
        s.tables.people
        s'.tables.people
  pub candidates :
      IsPurged
        (λ (r : CandidateRow). is_its_job installation s.tables r.job_id)
        s.tables.candidates
        s'.tables.candidates
  pub body_selections :
      IsPurged
        (λ (r : BodySelectionRow). is_its_job installation s.tables r.job_id)
        s.tables.body_selections
        s'.tables.body_selections
  pub selections :
      IsPurged
        (λ (r : SelectionRow).
          is_its_job installation s.tables r.job_id || same r.installation_id installation)
        s.tables.selections
        s'.tables.selections
  pub others :
      IsPurged
        (λ (r : OtherRow).
          is_chosen (is_its_job installation s.tables) r.job_id
          || is_some_of r.installation_id installation)
        s.tables.others
        s'.tables.others
  pub counters : IsPurged (counts_it installation) s.tables.counters s'.tables.counters
  pub body_preferences :
      IsPurged (λ r. same r.installation_id installation) s.body_preferences s'.body_preferences
  pub installations : s'.installations ≡ s.installations
  pub receipts : s'.receipts ≡ s.receipts

scoped-column :
    (installation : String) (r : OtherRow)
    → HasColumns r.table r.installation_id
    → is_scoped_to installation r ≡ is_some_of r.installation_id installation
unfolding is_scoped_to is_installation_scoped
scoped-column installation r h = by_table r.table r.installation_id h
  where
    by_table :
        (t : OtherTable) (i : Option String)
        → HasColumns t i
        → (is_installation_scoped t && is_some_of i installation) ≡ is_some_of i installation
    by_table body_mutations i h = refl
    by_table export_events i h = refl
    by_table job_feedback i h = refl
    by_table analytics_events i h = refl
    by_table admin_access_audit i h = refl
    by_table refined_artifacts i h = rw h

counter-subject :
    (installation : String) (c : Counter) → is_counter_of installation c ≡ counts_it installation c
unfolding is_counter_of counts_installation
counter-subject installation c = by_scope c.key.scope
  where
    by_scope :
        (k : UsageScope)
        → (counts_installation k && same c.key.subject installation) ≡ (elim (subject_of k) [
          | an_installation ↦ same c.key.subject installation
          | everyone ↦ false
          | an_address ↦ false
        ])
    by_scope global_day = refl
    by_scope ip_register = refl
    by_scope ip_analyze = refl
    by_scope installation_week = refl
    by_scope semantic_search = refl
    by_scope hand_preview = refl
    by_scope semantic_model_preview = refl

module _ (installation : String) (s : Stored) (u : HasUniqueIds s.tables.jobs)
    (columns : All (λ r. HasColumns r.table r.installation_id) s.tables.others) where
  chosen_is_its_job :
      chosen_by (is_of_installation installation) s.tables.jobs ≡ is_its_job installation s.tables
  chosen_is_its_job = fun_ext (λ (id : String). chosen_by-find _ s.tables.jobs id u)

  its_jobs :
      All
        (λ j. is_its_job installation s.tables j.id ≡ is_of_installation installation j)
        s.tables.jobs
  its_jobs =
      rw chosen_is_its_job at (chosen_by-agrees (is_of_installation installation) s.tables.jobs u)

  -- After the deletion of an installation's data, with unique ids of jobs, every table holds exactly
  -- the rows that it held and that do not belong to the installation: by its own column, which
  -- refined_artifacts lacks, or by a job that is the installation's. Of the counters those go whose
  -- scope counts installations, under this one; the installations and the receipts stay.
  pub delete_installation_data-IsForgotten :
      IsForgotten installation s (delete_installation_data installation s)
  unfolding delete_installation_data delete_selected delete_jobs
  delete_installation_data-IsForgotten = rw chosen_is_its_job (record {
    jobs = delete_where-agree _ _ s.tables.jobs its_jobs ∙ delete-IsPurged _ s.tables.jobs;
    outbox = delete-IsPurged _ s.tables.outbox;
    people = delete-IsPurged _ s.tables.people;
    candidates = delete-IsPurged _ s.tables.candidates;
    body_selections = delete-IsPurged _ s.tables.body_selections;
    selections = delete-delete _ _ s.tables.selections;
    others =
        delete_where-agree _ _ _
          (All-delete _ _ _ s.tables.others (λ r out. scoped-column installation r) columns)
        ∙ delete-delete _ _ s.tables.others;
    counters = rw (fun_ext (counter-subject installation)) (delete-IsPurged _ s.tables.counters);
    body_preferences = delete-IsPurged _ s.body_preferences;
    installations = refl;
    receipts = refl;
  })
