-- ===== src/Jobs/Selections/Chosen.antt =====
-- The candidate that a body chooses for a person, described without the code's lookup.
use mathlib.Core.List.{Mem, mem-cons_self, mem-cons_of_mem}
use standin_app_server.Prelude.{
  ℕ, ◌≡◌, inl, inr, refl, subst, ◌&&◌, List, [], ◌∷◌, arith, if◌then◌else◌, ◌==◌, String, Option,
  none, some, Bool-cases, Option-cases,
}
use standin_app_server.Jobs.Rows.{same}
use standin_app_server.Jobs.Tables.{CandidateRow, SelectionRow}
use standin_app_server.Jobs.Selections.{
  Selection, Validated, find_candidate, push_validated, validate,
}

-- The id in the last selection of a person in the body.
abbrev pub last_choice : ℕ → List Selection → Option String
last_choice i [] = none
last_choice i (s ∷ ss) = elim (last_choice i ss) [
  | some c ↦ some c
  | none ↦ if s.person_index == i then some s.candidate_id else none
]

-- A candidate of a job and a person, with an id, among the rows.
pub record IsCandidate (id : String) (i : ℕ) (name : String) (rows : List CandidateRow)
    (c : CandidateRow) : Type 0 where
  pub among : Mem c rows
  pub job : c.job_id ≡ id
  pub person : c.person_index ≡ i
  pub named : c.candidate_id ≡ name

-- The row of a person: none without a choice, else one with the id that was chosen and the rank of the
-- candidate of that id.
abbrev pub Confirms :
    String → String → ℕ → ℕ → List CandidateRow → Option String → Option SelectionRow → Type 0
Confirms installation id now i rows none row = row ≡ none
Confirms installation id now i rows (some name) row =
    (c : CandidateRow) × IsCandidate id i name rows c
    × (row
        ≡ some (record {
          job_id = id;
          person_index = i;
          installation_id = installation;
          candidate_id = name;
          rank = c.rank;
          confirmed_at = now;
        }))

find_candidate-IsCandidate :
    (id : String) (s : Selection) (rows : List CandidateRow) (c : CandidateRow)
    → find_candidate id s rows ≡ some c
    → IsCandidate id s.person_index s.candidate_id rows c
unfolding find_candidate
find_candidate-IsCandidate id s [] c e = cc
find_candidate-IsCandidate id s (d ∷ rows) c e =
    elim (Bool-cases (
      same d.job_id id
      && ((d.person_index == s.person_index) && same d.candidate_id s.candidate_id))) [
        | inl here ↦
            let itself : d ≡ c = ground (arith, here, e) in
            subst (IsCandidate id s.person_index s.candidate_id (d ∷ rows)) itself (record {
              among = mem-cons_self;
              job = ground (arith, here);
              person = ground (arith, here);
              named = ground (arith, here);
            })
        | inr there ↦
            let found = find_candidate-IsCandidate id s rows c (ground (arith, there, e)) in
            record {
              among = mem-cons_of_mem d found.among;
              job = found.job;
              person = found.person;
              named = found.named;
            }
      ]

-- The rows that the code's lookup finds are those that the body chooses.
unfoldable pub picked : String → ℕ → List CandidateRow → List Selection → Option CandidateRow
picked id i candidates [] = none
picked id i candidates (s ∷ ss) = elim (picked id i candidates ss) [
  | some c ↦ some c
  | none ↦ if s.person_index == i then find_candidate id s candidates else none
]

abbrev Picks : String → ℕ → List CandidateRow → Option String → Option CandidateRow → Type 0
Picks id i rows none c = c ≡ none
Picks id i rows (some name) c = (d : CandidateRow) × (c ≡ some d) × IsCandidate id i name rows d

picked_first :
    (id : String) (i : ℕ) (rows : List CandidateRow) (s : Selection) (ss : List Selection)
    (c : CandidateRow)
    → find_candidate id s rows ≡ some c
    → Picks id i rows (last_choice i ss) (picked id i rows ss)
    → Picks id i rows (last_choice i (s ∷ ss)) (picked id i rows (s ∷ ss))
unfolding picked
picked_first id i rows s ss c found rest = elim (Option-cases (last_choice i ss)) [
  | inr (name, chosen) ↦
      let (d, here, valid) = rw chosen at rest in rw (chosen, here) (d, refl, valid)
  | inl missing ↦
      let unpicked = rw missing at rest in
      elim (Bool-cases (s.person_index == i)) [
        | inr other ↦ rw (missing, unpicked, other) refl
        | inl own ↦
            let index : s.person_index ≡ i = ground (arith, own) in
            rw (missing, unpicked, own, found)
              (
                c,
                refl,
                subst (λ n. IsCandidate id n s.candidate_id rows c) index
                    (find_candidate-IsCandidate id s rows c found),
              )
      ]
]

picked-Picks :
    (id : String) (i : ℕ) (rows : List CandidateRow) (ss : List Selection) (vs : List Validated)
    → validate id rows ss ≡ some vs
    → Picks id i rows (last_choice i ss) (picked id i rows ss)
unfolding validate push_validated picked
picked-Picks id i rows [] vs e = refl
picked-Picks id i rows (s ∷ ss) vs e = elim (Option-cases (find_candidate id s rows)) [
  | inl missing ↦ absurd (ground (arith, missing, e))
  | inr (c, found) ↦ elim (Option-cases (validate id rows ss)) [
    | inl missing ↦ absurd (ground (arith, found, missing, e))
    | inr (ws, valid) ↦ picked_first id i rows s ss c found (picked-Picks id i rows ss ws valid)
  ]
]

abbrev pub confirmed_row : String → String → ℕ → ℕ → Option CandidateRow → Option SelectionRow
confirmed_row installation id now i none = none
confirmed_row installation id now i (some c) = some (record {
  job_id = id;
  person_index = i;
  installation_id = installation;
  candidate_id = c.candidate_id;
  rank = c.rank;
  confirmed_at = now;
})

pub confirmed_row-Confirms :
    (installation id : String) (now i : ℕ) (rows : List CandidateRow) (ss : List Selection)
    (vs : List Validated)
    → validate id rows ss ≡ some vs
    → Confirms installation id now i rows
        (last_choice i ss)
        (confirmed_row installation id now i (picked id i rows ss))
confirmed_row-Confirms installation id now i rows ss vs valid =
    let picks = picked-Picks id i rows ss vs valid in
    elim (Option-cases (last_choice i ss)) [
      | inl missing ↦ let unpicked = rw missing at picks in rw (missing, unpicked) refl
      | inr (name, chosen) ↦
          let (c, here, is_candidate) = rw chosen at picks in
          rw (chosen, here) (c, is_candidate, rw is_candidate.named refl)
    ]
