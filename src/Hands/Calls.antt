-- ===== src/Hands/Calls.antt =====
-- The transaction of a selection in one step, and what a further call finds.
use standin_app_server.Prelude.{
  ℕ, ◌≡◌, inl, inr, refl, ap, sym, ◌∙◌, true, not, List, [], ◌∷◌, arith, if◌then◌else◌, String,
  Option, none, some, Tried, done, thrown, throw_if, Option-cases, >>=-eq-done, done-inj,
}
use standin_app_server.Hands.{HandSelection, HandError, hands_not_applicable, not_found}
use standin_app_server.Hands.Catalog.{HandCatalog}
use standin_app_server.Hands.Store.{
  HandChange, find_person, set_selection, is_shown, includes_hands, choose_hands, ready_result,
  shown_person, store_result, select_hands,
}
use standin_app_server.Jobs.Rows.{Person, AnalysisResult, JobRow, find_job}
use standin_app_server.Jobs.Rows.Laws.{find_job-update_where}
use standin_app_server.Jobs.Tables.{Tables}
use standin_app_server.Jobs.Lifecycle.{of_installation}

find_person-set_selection :
    (i : ℕ) (s : HandSelection) (ps : List Person) (p : Person)
    → find_person i ps ≡ some p
    → find_person i (set_selection i s ps) ≡ some (record p { hand_selection = some s })
unfolding find_person set_selection
find_person-set_selection i s [] p h = cc
find_person-set_selection i s (q ∷ ps) p h = ground (arith, h, find_person-set_selection i s ps p)

-- What a successful call has gone through.
pub record Ran (ready : Tried HandError HandCatalog) (owner id : String) (i : ℕ)
    (change : Option HandChange) (db : Tables) (r : HandSelection) : Type 0 where
  pub job : JobRow
  pub result : AnalysisResult
  pub person : Person
  pub catalog : HandCatalog
  pub found : of_installation owner (find_job id db.jobs) ≡ some job
  pub completed : ready_result (some job) ≡ done result
  pub shown : shown_person i result ≡ done person
  pub handed : includes_hands person ≡ true
  pub agreed : ready ≡ done catalog
  pub chosen : choose_hands catalog i person change ≡ done r

ready_result-found :
    (o : Option JobRow) (result : AnalysisResult)
    → ready_result o ≡ done result
    → (j : JobRow) × (o ≡ some j)
unfolding ready_result
ready_result-found none result h = cc
ready_result-found (some j) result h = (j, refl)

abbrev pub stored_result : ℕ → HandSelection → AnalysisResult → AnalysisResult
stored_result i r result = record result { persons = set_selection i r result.persons }

module _ (ready : Tried HandError HandCatalog) (owner id : String) (i : ℕ)
    (change : Option HandChange) (now : ℕ) (db : Tables) (r : HandSelection) where
  -- The code in one step.
  pub run-Ran :
      (w : Ran ready owner id i change db r)
      → select_hands ready owner id i change now db
        ≡ done (store_result id (stored_result i r w.result) now db, r)
  unfolding select_hands
  run-Ran w = rw (w.found, w.completed, w.shown, w.handed, w.agreed, w.chosen)

  pub Ran-run :
      (db' : Tables)
      → select_hands ready owner id i change now db ≡ done (db', r)
      → (w : Ran ready owner id i change db r) × (db'
          ≡ store_result id (stored_result i r w.result) now db)
  unfolding select_hands
  Ran-run db' h =
      let (result, completed, h₁) =
        >>=-eq-done (ready_result (of_installation owner (find_job id db.jobs))) _ _ h in
      let (p, shown, h₂) = >>=-eq-done (shown_person i result) _ _ h₁ in
      let (u, handed, h₃) =
        >>=-eq-done (throw_if (not (includes_hands p)) hands_not_applicable) _ _ h₂ in
      let (catalog, agreed, h₄) = >>=-eq-done ready _ _ h₃ in
      let (chosen, ran, last) = >>=-eq-done (choose_hands catalog i p change) _ _ h₄ in
      let e : ◌≡◌ {A = Tables × HandSelection}
          (store_result id (stored_result i chosen result) now db, chosen) (db', r) =
        done-inj _ (db', r) last in
      let same_choice : chosen ≡ r = ap (λ (x : Tables × HandSelection). x.1) e in
      let (j, found) =
        ready_result-found (of_installation owner (find_job id db.jobs)) result completed in
      (
        record {
          job = j;
          result = result;
          person = p;
          catalog = catalog;
          found = found;
          completed = ap ready_result (sym found) ∙ completed;
          shown = shown;
          handed = ground (arith, handed);
          agreed = agreed;
          chosen = ran ∙ ap done same_choice;
        },
        sym (ap (λ (x : Tables × HandSelection). x.0) e)
            ∙ ap (λ x. store_result id (stored_result i x result) now db) same_choice,
      )

-- The person with the new selection is found again, and is shown as before.
shown_person-set_selection :
    (i : ℕ) (s : HandSelection) (result : AnalysisResult) (p : Person)
    → shown_person i result ≡ done p
    → shown_person i (stored_result i s result) ≡ done (record p { hand_selection = some s })
unfolding shown_person is_shown
shown_person-set_selection i s result p h = elim (Option-cases (find_person i result.persons)) [
  | inl missing ↦ absurd (ground (arith, missing, h))
  | inr (q, found) ↦
      let whole : shown_person i (stored_result i s result)
          ≡ (if is_shown q then done (record q { hand_selection = some s }) else thrown not_found) =
        rw (shown_person, find_person-set_selection i s result.persons q found) refl in
      whole ∙ ground (arith, found, h)
]

-- The job of the owner, with its new result.
stored_job :
    (owner id : String) (result : AnalysisResult) (now : ℕ) (db : Tables) (j : JobRow)
    → of_installation owner (find_job id db.jobs) ≡ some j
    → of_installation owner (find_job id (store_result id result now db).jobs)
      ≡ some (record j { result_json = some result; updated_at = now })
unfolding store_result
stored_job owner id result now db j h =
    rw
      (find_job-update_where (λ j. record j { result_json = some result; updated_at = now })
        (λ j. refl) id id (λ j. true) db.jobs)
      (elim (Option-cases (find_job id db.jobs)) [
        | inl missing ↦ absurd (ground (arith, missing, h))
        | inr (k, found) ↦ ground (arith, found, h)
      ])

ready_result-stored :
    (j : JobRow) (old result : AnalysisResult) (now : ℕ)
    → ready_result (some j) ≡ done old
    → ready_result (some (record j { result_json = some result; updated_at = now })) ≡ done result
unfolding ready_result
ready_result-stored j old result now h = elim (Option-cases j.result_json) [
  | inl missing ↦ absurd (ground (arith, missing, h))
  | inr (r, found) ↦ ground (arith, found, h)
]

-- After a successful call, a further call gets as far as the choice, with what was stored.
module _ (ready : Tried HandError HandCatalog) (owner id : String) (i : ℕ)
    (change : Option HandChange) (now : ℕ) (db : Tables) (r : HandSelection)
    (w : Ran ready owner id i change db r) where
  abbrev pub after : Tables
  after = store_result id (stored_result i r w.result) now db

  abbrev pub stored_person : Person
  stored_person = record w.person { hand_selection = some r }

  pub next-Ran :
      (next : Option HandChange) (r' : HandSelection)
      → choose_hands w.catalog i stored_person next ≡ done r'
      → Ran ready owner id i next after r'
  unfolding includes_hands
  next-Ran next r' chosen = record {
    job = record w.job { result_json = some (stored_result i r w.result); updated_at = now };
    result = stored_result i r w.result;
    person = stored_person;
    catalog = w.catalog;
    found = stored_job owner id (stored_result i r w.result) now db w.job w.found;
    completed = ready_result-stored w.job w.result (stored_result i r w.result) now w.completed;
    shown = shown_person-set_selection i r w.result w.person w.shown;
    handed = w.handed;
    agreed = w.agreed;
    chosen = chosen;
  }

  pub next-thrown :
      (next : Option HandChange) (later : ℕ) (e : HandError)
      → choose_hands w.catalog i stored_person next ≡ thrown e
      → select_hands ready owner id i next later after ≡ thrown e
  unfolding select_hands includes_hands
  next-thrown next later e refused = rw (
    stored_job owner id (stored_result i r w.result) now db w.job w.found,
    ready_result-stored w.job w.result (stored_result i r w.result) now w.completed,
    shown_person-set_selection i r w.result w.person w.shown,
    w.handed,
    w.agreed,
    refused,
  )
