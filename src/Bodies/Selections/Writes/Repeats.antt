-- ===== src/Bodies/Selections/Writes/Repeats.antt =====
-- Choices that are made again, or of a choice that is gone.
use standin_app_server.Prelude.{
  ℕ, suc, ◌≡◌, ◌⊎◌, inl, inr, refl, sym, ap, subst, ◌∙◌, false, List, [], ◌∷◌, arith, String,
  Option, none, some, same, done, thrown, >>=-eq-done, done-inj, All,
}
use standin_app_server.Bodies.{
  BodyRef, ResolvedSource, manual, last_used, auto_recommendation, catalog_default_fallback,
  fixed_default, user_default_fallback, BodySelection,
}
use standin_app_server.Bodies.Shape.{ShapeHash}
use standin_app_server.Bodies.Tables.{
  body_error, SelectionChange, SelectionRow, BodyDb, expect, find_mutation, replay, replayed,
  remember,
}
use standin_app_server.Bodies.Tables.Remembered.{
  IsStrict, IsPast, replay-remember, find_mutation-other,
}
use standin_app_server.Bodies.Preferences.{Deps, store_preferences}
use standin_app_server.Bodies.Selections.{revalidate, decide}
use standin_app_server.Bodies.Persons.{
  person_body_context, find_selection, update_selection, OwnedPerson, found, completed_job,
  owned_person,
}
use standin_app_server.Bodies.Selections.Decided.{IsOffered, decide-IsOffered, found-done}
use standin_app_server.Bodies.Selections.Writes.{
  remember_body, last_used_of, record_last_used, payload_of, save_selection, choose_once,
  write_selection,
}

find_selection-update :
    (job : String) (index : ℕ) (value : BodySelection) (rows : List SelectionRow)
    (row : SelectionRow)
    → find_selection job index rows ≡ some row
    → find_selection job index (update_selection job index value rows)
      ≡ some (record row { value = value })
unfolding find_selection update_selection
find_selection-update job index value [] row h = cc
find_selection-update job index value (r ∷ rs) row h =
    ground (arith, h, find_selection-update job index value rs row)

module _ (hash : ShapeHash) (deps : Deps) where
  -- Only the preferences are written for the next job.
  last_used_of-kept :
      (owner : String) (value : BodySelection) (body : Option BodyRef)
      (source : Option ResolvedSource) (db : BodyDb)
      → ((last_used_of hash deps owner value body source db).jobs ≡ db.jobs)
        × ((last_used_of hash deps owner value body source db).body_selections ≡ db.body_selections)
        × ((last_used_of hash deps owner value body source db).selection_mutations
            ≡ db.selection_mutations)
  unfolding last_used_of remember_body store_preferences
  last_used_of-kept owner value (some body) (some manual) db = (refl, refl, refl)
  last_used_of-kept owner value (some body) (some last_used) db = (refl, refl, refl)
  last_used_of-kept owner value (some body) (some auto_recommendation) db = (refl, refl, refl)
  last_used_of-kept owner value (some body) (some catalog_default_fallback) db = (refl, refl, refl)
  last_used_of-kept owner value (some body) (some fixed_default) db = (refl, refl, refl)
  last_used_of-kept owner value (some body) (some user_default_fallback) db = (refl, refl, refl)
  last_used_of-kept owner value (some body) none db = (refl, refl, refl)
  last_used_of-kept owner value none source db = (refl, refl, refl)

  module _ (owner job : String) (index : ℕ) (change : SelectionChange) (db after : BodyDb)
      (value : BodySelection) where
    abbrev wanted : String
    wanted = deps.payload_hash (payload_of change)

    -- How a write ends that is not a repetition.
    pub record IsMade (owned : OwnedPerson) : Type 0 where
      pub row : SelectionRow
      pub row_lem : find_selection job index db.body_selections ≡ some row
      pub decide_lem : decide hash deps change index owned row.value ≡ done value
      pub after_lem : save_selection hash deps owner job index change value db ≡ after

    unfoldable pub WasRepeated : OwnedPerson → Type 0
    WasRepeated owned =
        (old : BodySelection) × (replay owner (job, index) change.mutation wanted
            db.selection_mutations
          ≡ done (some old))
        × (revalidate hash deps old owned.person owned.semantic (some owned.policy) ≡ value)
        × (db ≡ after)

    choose_once-cases :
        (owned : OwnedPerson) (previous : Option BodySelection)
        → replay owner (job, index) change.mutation wanted db.selection_mutations ≡ done previous
        → choose_once hash deps db owner job index change owned previous ≡ done (after, value)
        → WasRepeated owned ⊎ IsMade owned
    unfolding choose_once WasRepeated
    choose_once-cases owned (some old) e h =
        let pair = done-inj _ _ h in inl (old, e, ap (λ p. p.1) pair, ap (λ p. p.0) pair)
    choose_once-cases owned none e h =
        let (row, one, h₁) =
          >>=-eq-done
            (found (find_selection job index db.body_selections)
              (body_error "BODY_SELECTION_UNSUPPORTED" 409))
            _ _ h in
        let (made, two, h₂) = >>=-eq-done (decide hash deps change index owned row.value) _ _ h₁ in
        let pair = done-inj _ _ h₂ in
        let same_value = ap (λ p. p.1) pair in
        inr (record {
          row = row;
          row_lem = found-done _ _ row one;
          decide_lem = two ∙ ap done same_value;
          after_lem =
              subst (λ v. save_selection hash deps owner job index change v db ≡ after) same_value
                (ap (λ p. p.0) pair);
        })

    pub write_selection-cases :
        write_selection hash deps db owner job index change ≡ done (after, value)
        → (owned : OwnedPerson) × (owned_person db owner job index ≡ done owned)
          × (WasRepeated owned ⊎ IsMade owned)
    unfolding write_selection
    write_selection-cases h =
        let (owned, one, h₁) = >>=-eq-done (owned_person db owner job index) _ _ h in
        let (previous, two, h₂) =
          >>=-eq-done (replay owner (job, index) change.mutation wanted db.selection_mutations) _ _
            h₁ in
        (owned, one, choose_once-cases owned previous two h₂)

    -- What the database holds after a write.
    record IsSaved : Type 0 where
      same_jobs : after.jobs ≡ db.jobs
      saved_row : SelectionRow
      saved_lem : find_selection job index after.body_selections ≡ some saved_row
      saved_value : saved_row.value ≡ value
      found_again :
          IsStrict deps.later_id
          → All (IsPast deps.now) db.selection_mutations
          → replay owner (job, index) change.mutation wanted after.selection_mutations
            ≡ done (some value)
      not_found :
          (id : String)
          → IsStrict deps.later_id
          → same change.mutation.mutation_id id ≡ false
          → find_mutation owner (job, index) id db.selection_mutations ≡ none
          → find_mutation owner (job, index) id after.selection_mutations ≡ none

    saved : (owned : OwnedPerson) → IsMade owned → IsSaved
    unfolding save_selection record_last_used
    saved owned made =
        let written : BodyDb = record db {
          body_selections = update_selection job index value db.body_selections;
          selection_mutations =
              remember deps.later_id
                (record {
                  owner = owner;
                  resource = (job, index);
                  mutation_id = change.mutation.mutation_id;
                  job = some job;
                  payload_hash = wanted;
                  response = value;
                  created_at = deps.now;
                })
                db.selection_mutations;
        } in
        let (jobs, rows, mutations) =
          last_used_of-kept owner value value.resolved_body value.resolved_source written in
        let e = made.after_lem in
        let rows_after = sym (ap (λ d. d.body_selections) e) ∙ rows in
        let mutations_after = sym (ap (λ d. d.selection_mutations) e) ∙ mutations in
        record {
          same_jobs = sym (ap (λ d. d.jobs) e) ∙ jobs;
          saved_row = record made.row { value = value };
          saved_lem =
              ap (λ rs. find_selection job index rs) rows_after
              ∙ find_selection-update job index value db.body_selections made.row made.row_lem;
          saved_value = refl;
          found_again = λ strict past. rw mutations_after (
              replay-remember deps.later_id strict _ db.selection_mutations change.mutation past
                refl);
          not_found = λ id strict apart new. rw mutations_after (
              find_mutation-other deps.later_id strict _ db.selection_mutations owner (job, index)
                id apart new);
        }

    not_repeated :
        (owned : OwnedPerson)
        → find_mutation owner (job, index) change.mutation.mutation_id db.selection_mutations ≡ none
        → ¬ WasRepeated owned
    unfolding WasRepeated replay replayed
    not_repeated owned new (old, e, answer, kept) = ground (arith, e, new)

    owned_person-jobs :
        after.jobs ≡ db.jobs → owned_person after owner job index ≡ owned_person db owner job index
    unfolding owned_person completed_job
    owned_person-jobs e = rw e refl

    new_request :
        find_mutation owner (job, index) change.mutation.mutation_id db.selection_mutations ≡ none
        → write_selection hash deps db owner job index change ≡ done (after, value)
        → (owned : OwnedPerson) × (owned_person after owner job index ≡ done owned)
          × IsMade owned
          × IsSaved
    new_request new h =
        let (owned, one, how) = write_selection-cases h in
        elim how [
          | inl again ↦ absurd (not_repeated owned new again)
          | inr made ↦
              let k = saved owned made in (owned, owned_person-jobs k.same_jobs ∙ one, made, k)
        ]

    -- A choice that succeeded with a mutation id that was not remembered is, when it is sent
    -- again, answered with the first one, as the catalog of that time has it, and nothing is
    -- written; the older answers are of earlier times.
    pub write_selection-again :
        (later : Deps)
        → IsStrict deps.later_id
        → All (IsPast deps.now) db.selection_mutations
        → later.payload_hash ≡ deps.payload_hash
        → find_mutation owner (job, index) change.mutation.mutation_id db.selection_mutations ≡ none
        → write_selection hash deps db owner job index change ≡ done (after, value)
        → (owned : OwnedPerson) × (owned_person after owner job index ≡ done owned)
          × (write_selection hash later after owner job index change
              ≡ done (
                after,
                revalidate hash later value owned.person owned.semantic (some owned.policy),
              ))
    unfolding write_selection choose_once
    write_selection-again later strict past e new h =
        let (owned, one, made, k) = new_request new h in
        (owned, one, rw (e, one, k.found_again strict past) refl)

    -- Of two choices for a person with the same expected revision and different mutation ids,
    -- neither of them remembered, the second is refused with the revision that the first one made.
    pub write_selection-stale :
        (later : Deps) (second : SelectionChange)
        → IsStrict deps.later_id
        → find_mutation owner (job, index) change.mutation.mutation_id db.selection_mutations ≡ none
        → find_mutation owner (job, index) second.mutation.mutation_id db.selection_mutations ≡ none
        → same change.mutation.mutation_id second.mutation.mutation_id ≡ false
        → second.mutation.expected_revision ≡ change.mutation.expected_revision
        → write_selection hash deps db owner job index change ≡ done (after, value)
        → write_selection hash later after owner job index second
          ≡ thrown (record {
            code = "BODY_SELECTION_CONFLICT";
            status = 409;
            current_revision = some (suc change.mutation.expected_revision);
          })
    unfolding write_selection choose_once decide expect replay replayed
    write_selection-stale later second strict new₁ new₂ apart stale h =
        let (owned, one, made, k) = new_request new₁ h in
        let (offered, expected, next, intent) =
          decide-IsOffered hash deps change index owned made.row.value value made.decide_lem in
        rw
          (
            one,
            k.not_found second.mutation.mutation_id strict apart new₂,
            k.saved_lem,
            k.saved_value,
            next,
            expected,
            stale,
          )
          (ground arith)

    -- A choice that succeeds, with a mutation id that is not remembered, is then the row of its
    -- person, and it has a body that the catalog has for the person's poses, or for a preview of
    -- them, and whose character the converter has.
    pub write_selection-IsOffered :
        find_mutation owner (job, index) change.mutation.mutation_id db.selection_mutations ≡ none
        → write_selection hash deps db owner job index change ≡ done (after, value)
        → (owned : OwnedPerson) × (row : SelectionRow) × (owned_person db owner job index
            ≡ done owned)
          × IsOffered deps (person_body_context owned.person owned.semantic) value
          × (find_selection job index after.body_selections ≡ some row)
          × (row.value ≡ value)
    write_selection-IsOffered new h =
        let (owned, one, made, k) = new_request new h in
        let (offered, expected, next, intent) =
          decide-IsOffered hash deps change index owned made.row.value value made.decide_lem in
        (
          owned,
          k.saved_row,
          sym (owned_person-jobs k.same_jobs) ∙ one,
          offered,
          k.saved_lem,
          k.saved_value,
        )
