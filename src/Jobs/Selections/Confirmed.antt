-- ===== src/Jobs/Selections/Confirmed.antt =====
-- What a confirmation leaves in confirmed_selections.
use standin_app_server.Prelude.{
  ℕ, ◌≡◌, ◌≢◌, inl, inr, refl, sym, ap, ◌∙◌, subst, Bool, true, false, not, ◌&&◌, List, [], ◌∷◌,
  arith, ◌==◌, String, none, some, Bool-cases, Option-cases,
}
use standin_app_server.Jobs.Rows.{find_job, is_none}
use standin_app_server.Jobs.Tables.{Tables, CandidateRow, SelectionRow}
use standin_app_server.Jobs.Lifecycle.{of_installation}
use standin_app_server.Jobs.Selections.{
  Selection, Validated, has_person, find_candidate, push_validated, validate, persons_of,
  upsert_all, delete_others, confirm_selections,
}
use standin_app_server.Jobs.Selections.Chosen.{
  last_choice, Confirms, picked, confirmed_row, confirmed_row-Confirms,
}
use standin_app_server.Jobs.Selections.Lookups.{
  selection_of, newest, or_row, selection_of-delete_others, selection_of-upsert_all,
  others-upsert_all,
}

has_person-newest :
    (i : ℕ) (vs : List Validated) → newest i vs ≡ none → has_person i (persons_of vs) ≡ false
unfolding newest has_person
has_person-newest i [] e = refl
has_person-newest i (v ∷ vs) e = elim (Option-cases (newest i vs)) [
  | inl missing ↦ ground (arith, missing, e, has_person-newest i vs missing)
  | inr (w, here) ↦ absurd (ground (arith, here, e))
]

newest_first :
    (installation id : String) (now i : ℕ) (candidates : List CandidateRow) (s : Selection)
    (ss : List Selection) (c : CandidateRow) (ws : List Validated)
    → find_candidate id s candidates ≡ some c
    → or_row installation id now (newest i ws) none
      ≡ confirmed_row installation id now i (picked id i candidates ss)
    → or_row installation id now
        (newest i (
          record { person_index = s.person_index; candidate_id = c.candidate_id; rank = c.rank }
          ∷ ws))
        none
      ≡ confirmed_row installation id now i (picked id i candidates (s ∷ ss))
unfolding newest picked
newest_first installation id now i candidates s ss c ws found rest =
    elim (Option-cases (newest i ws)) [
      | inl none_yet ↦ elim (Option-cases (picked id i candidates ss)) [
        | inl missing ↦ elim (Bool-cases (s.person_index == i)) [
          | inl e ↦
              rw (none_yet, missing, e, found)
                (ap (λ n. confirmed_row installation id now n (some c)) (ground (arith, e)))
          | inr e ↦ rw (none_yet, missing, e) refl
        ]
        | inr (d, here) ↦ absurd (ground (arith, none_yet, here, rest))
      ]
      | inr (w, there) ↦ elim (Option-cases (picked id i candidates ss)) [
        | inl missing ↦ absurd (ground (arith, there, missing, rest))
        | inr (d, here) ↦
            rw (there, here)
              (ap (λ x. or_row installation id now x none) (sym there)
                ∙ (rest ∙ ap (confirmed_row installation id now i) here))
      ]
    ]

-- The rows of the candidates that were found, person by person.
newest-picked :
    (installation id : String) (now i : ℕ) (candidates : List CandidateRow) (ss : List Selection)
    (vs : List Validated)
    → validate id candidates ss ≡ some vs
    → or_row installation id now (newest i vs) none
      ≡ confirmed_row installation id now i (picked id i candidates ss)
unfolding validate push_validated newest picked
newest-picked installation id now i candidates [] [] e = refl
newest-picked installation id now i candidates [] (v ∷ vs) e = cc
newest-picked installation id now i candidates (s ∷ ss) vs e =
    elim (Option-cases (find_candidate id s candidates)) [
      | inl missing ↦ absurd (ground (arith, missing, e))
      | inr (c, found) ↦ elim (Option-cases (validate id candidates ss)) [
        | inl missing ↦ absurd (ground (arith, found, missing, e))
        | inr (ws, valid) ↦
            let v : Validated = record {
              person_index = s.person_index;
              candidate_id = c.candidate_id;
              rank = c.rank;
            } in
            let known : vs ≡ v ∷ ws = ground (arith, found, valid, e) in
            let rest = newest-picked installation id now i candidates ss ws valid in
            subst
              (λ x.
                or_row installation id now (newest i x) none
                ≡ confirmed_row installation id now i (picked id i candidates (s ∷ ss)))
              (sym known) (newest_first installation id now i candidates s ss c ws found rest)
      ]
    ]

-- A confirmed set: of this job each person has the candidate that the body chooses last for the person,
-- or no row, and the rows of other jobs stay.
pub record Replaces (installation id : String) (selections : List Selection) (now : ℕ)
    (candidates : List CandidateRow) (before after : List SelectionRow) : Type 0 where
  pub replaced :
      (i : ℕ)
      → Confirms installation id now i candidates
          (last_choice i selections)
          (selection_of id i after)
  pub others : (k : String) (i : ℕ) → k ≢ id → selection_of k i after ≡ selection_of k i before

none_row :
    (installation id : String) (now : ℕ) (i : ℕ) (vs : List Validated) (rows : List SelectionRow)
    → or_row installation id now
        (newest i vs)
        (selection_of id i (delete_others id (persons_of vs) rows))
      ≡ or_row installation id now (newest i vs) none
none_row installation id now i vs rows = elim (Option-cases (newest i vs)) [
  | inl missing ↦
      rw
        (
          missing,
          selection_of-delete_others id id i (persons_of vs) rows,
          has_person-newest i vs missing,
        )
        (ground arith)
  | inr (w, here) ↦ rw here refl
]

store-Replaces :
    (installation id : String) (selections : List Selection) (now : ℕ)
    (candidates : List CandidateRow) (before : List SelectionRow) (vs : List Validated)
    → validate id candidates selections ≡ some vs
    → Replaces installation id selections now candidates before
        (upsert_all installation id now vs (delete_others id (persons_of vs) before))
store-Replaces installation id selections now candidates before vs valid = record {
  replaced = λ i.
      subst (Confirms installation id now i candidates (last_choice i selections))
        (sym (
          selection_of-upsert_all installation id now i vs (delete_others id (persons_of vs) before)
          ∙ (none_row installation id now i vs before
              ∙ newest-picked installation id now i candidates selections vs valid)))
        (confirmed_row-Confirms installation id now i candidates selections vs valid);
  others = λ k i ne.
      others-upsert_all installation id now k i vs (delete_others id (persons_of vs) before) ne
      ∙ ground (arith, selection_of-delete_others k id i (persons_of vs) before, ne);
}

-- A confirmation that is saved replaces the selections of the job: each person that the body names has
-- a row with the id of the last selection of that person, and with the rank of a candidate of the job
-- and the person that has this id; persons whom it does not name have no row any more, and no row of
-- another job changes.
pub confirm_selections-Replaces :
    (installation id : String) (selections : List Selection) (now : ℕ) (db : Tables)
    → (confirm_selections installation id selections now db).1 ≡ true
    → Replaces installation id selections now db.candidates db.selections
        (confirm_selections installation id selections now db).0.selections
unfolding confirm_selections
confirm_selections-Replaces installation id selections now db saved =
    elim (Option-cases (of_installation installation (find_job id db.jobs))) [
      | inl missing ↦ absurd (ground (arith, missing, saved))
      | inr (j, owned) ↦ elim (Option-cases (validate id db.candidates selections)) [
        | inl wrong ↦ absurd (ground (arith, owned, wrong, saved))
        | inr (vs, valid) ↦
            rw (confirm_selections, owned, valid)
              (store-Replaces installation id selections now db.candidates db.selections vs valid)
      ]
    ]

-- Every selection names a candidate of the job and of its person.
abbrev pub all_found : String → List CandidateRow → List Selection → Bool
all_found id candidates [] = true
all_found id candidates (s ∷ ss) =
    not (is_none (find_candidate id s candidates)) && all_found id candidates ss

validate-all_found :
    (id : String) (candidates : List CandidateRow) (ss : List Selection)
    → not (is_none (validate id candidates ss)) ≡ all_found id candidates ss
unfolding validate push_validated
validate-all_found id candidates [] = refl
validate-all_found id candidates (s ∷ ss) = elim (Option-cases (find_candidate id s candidates)) [
  | inl missing ↦ rw missing refl
  | inr (c, found) ↦ elim (Option-cases (validate id candidates ss)) [
    | inl wrong ↦ ground (arith, found, wrong, validate-all_found id candidates ss)
    | inr (vs, valid) ↦ ground (arith, found, valid, validate-all_found id candidates ss)
  ]
]

-- A confirmation is saved exactly if the job is the installation's and every selection names a
-- candidate of the job and the person; one that is refused changes no table.
pub confirm_selections-answer :
    (installation id : String) (selections : List Selection) (now : ℕ) (db : Tables)
    → ((confirm_selections installation id selections now db).1 ≡ (
        not (is_none (of_installation installation (find_job id db.jobs)))
        && all_found id db.candidates selections))
      × ((confirm_selections installation id selections now db).1 ≡ false
          → (confirm_selections installation id selections now db).0 ≡ db)
unfolding confirm_selections
confirm_selections-answer installation id selections now db =
    elim (Option-cases (of_installation installation (find_job id db.jobs))) [
      | inl missing ↦ rw (confirm_selections, missing) (refl, λ e. refl)
      | inr (j, owned) ↦ elim (Option-cases (validate id db.candidates selections)) [
        | inl wrong ↦
            rw (confirm_selections, owned, wrong)
              (ground (arith, wrong, validate-all_found id db.candidates selections), λ e. refl)
        | inr (vs, valid) ↦
            rw (confirm_selections, owned, valid)
              (ground (arith, valid, validate-all_found id db.candidates selections), λ e. cc e)
      ]
    ]
