-- ===== src/Jobs/Records/Written.antt =====
-- The rows of a result as they are to be stored, described without the code's own functions, and the
-- rows of body_selections that a result adds.
use standin_app_server.Prelude.{
  ℕ, ◌≡◌, ◌≢◌, refl, ◌∙◌, Bool, true, false, ◌&&◌, List, [], ◌∷◌, ◌++◌, map, arith, if◌then◌else◌,
  ◌==◌, String, Option, none, some, Option-cases, inl, inr,
}
use standin_app_server.Jobs.Rows.{Candidate, Person, AnalysisResult, find_job, same}
use standin_app_server.Jobs.Tables.{Tables, PersonRow, CandidateRow, BodySelectionRow}
use standin_app_server.Jobs.Lifecycle.Deletion.{select_where}
use standin_app_server.Jobs.Records.{
  RefineContext, PersonSignals, context_of, signals_of, part, part_of, observed, person_row,
  candidate_row, add_body, add_bodies, policy_of, initialize_body_selections,
}
use standin_app_server.Jobs.Records.Laws.{candidates_of, row_of}

-- The last element that passes a test, or the one before the list.
abbrev pub latest : {A : Type 0} → (A → Bool) → Option A → List A → Option A
latest test found [] = found
latest test found (a ∷ rest) = latest test (if test a then some a else found) rest

abbrev pub context_for : List RefineContext → Person → Option RefineContext
context_for contexts p = latest (λ c. c.person_index == p.person_index) none contexts

abbrev pub signals_for : List PersonSignals → Person → Option PersonSignals
signals_for signals p = latest (λ s. s.person_index == p.person_index) none signals

-- The row of a person: under a consent with the raw scores and the signals, else with neither.
abbrev pub stored_person :
    String → Bool → List RefineContext → List PersonSignals → Person → PersonRow
stored_person id true contexts signals p = record {
  job_id = id;
  person_index = p.person_index;
  columns = p.columns;
  slot_origin = part_of (λ c. c.slot_origin) (context_for contexts p);
  lower_body_observed = observed (context_for contexts p);
  refine_context_json = part (λ c. c.context) (context_for contexts p);
  raw_scores_json = part_of (λ c. c.raw_scores) (context_for contexts p);
  signal = part (λ s. s.columns) (signals_for signals p);
}
stored_person id false contexts signals p = record {
  job_id = id;
  person_index = p.person_index;
  columns = p.columns;
  slot_origin = part_of (λ c. c.slot_origin) (context_for contexts p);
  lower_body_observed = observed (context_for contexts p);
  refine_context_json = part (λ c. c.context) (context_for contexts p);
  raw_scores_json = none;
  signal = none;
}

abbrev pub stored_candidate : String → ℕ → Candidate → CandidateRow
stored_candidate id person_index c = record {
  job_id = id;
  person_index = person_index;
  candidate_id = c.id;
  pose_id = c.pose_id;
  rank = c.rank;
  view = c.view;
  columns = c.columns;
}

abbrev pub stored_candidates : String → List Person → List CandidateRow
stored_candidates id [] = []
stored_candidates id (p ∷ ps) =
    map (stored_candidate id p.person_index) p.candidates ++ stored_candidates id ps

abbrev or_found : {A : Type 0} → Option A → Option A → Option A
or_found none b = b
or_found (some a) b = some a

context_of-latest :
    (i : ℕ) (found : Option RefineContext) (cs : List RefineContext)
    → latest (λ c. c.person_index == i) found cs ≡ or_found (context_of cs i) found
unfolding context_of
context_of-latest i found [] = refl
context_of-latest i found (c ∷ cs) =
    context_of-latest i (if c.person_index == i then some c else found) cs ∙ ground arith

signals_of-latest :
    (i : ℕ) (found : Option PersonSignals) (ss : List PersonSignals)
    → latest (λ s. s.person_index == i) found ss ≡ or_found (signals_of ss i) found
unfolding signals_of
signals_of-latest i found [] = refl
signals_of-latest i found (s ∷ ss) =
    signals_of-latest i (if s.person_index == i then some s else found) ss ∙ ground arith

or_found-none : {A : Type 0} (a : Option A) → or_found a none ≡ a
or_found-none none = refl
or_found-none (some a) = refl

person_row-stored :
    (id : String) (allowed : Bool) (contexts : List RefineContext) (signals : List PersonSignals)
    (p : Person)
    → person_row id allowed contexts signals p ≡ stored_person id allowed contexts signals p
unfolding person_row
person_row-stored id true contexts signals p =
    rw
      (
        context_of-latest p.person_index none contexts,
        or_found-none (context_of contexts p.person_index),
        signals_of-latest p.person_index none signals,
        or_found-none (signals_of signals p.person_index),
      )
      refl
person_row-stored id false contexts signals p =
    rw
      (
        context_of-latest p.person_index none contexts,
        or_found-none (context_of contexts p.person_index),
      )
      refl

pub rows-stored :
    (id : String) (allowed : Bool) (contexts : List RefineContext) (signals : List PersonSignals)
    (ps : List Person)
    → map (row_of id allowed contexts signals) ps
      ≡ map (stored_person id allowed contexts signals) ps
unfolding row_of
rows-stored id allowed contexts signals [] = refl
rows-stored id allowed contexts signals (p ∷ ps) =
    rw (person_row-stored id allowed contexts signals p, rows-stored id allowed contexts signals ps)

candidate_rows-stored :
    (id : String) (i : ℕ) (cs : List Candidate)
    → map (candidate_row id i) cs ≡ map (stored_candidate id i) cs
unfolding candidate_row
candidate_rows-stored id i [] = refl
candidate_rows-stored id i (c ∷ cs) = rw (candidate_rows-stored id i cs)

pub candidates-stored :
    (id : String) (ps : List Person) → candidates_of id ps ≡ stored_candidates id ps
unfolding candidates_of
candidates-stored id [] = refl
candidates-stored id (p ∷ ps) =
    rw (candidate_rows-stored id p.person_index p.candidates, candidates-stored id ps)

-- The body of a person of a job, where there is one.
abbrev pub body_of : String → ℕ → List BodySelectionRow → Option String
body_of id i [] = none
body_of id i (b ∷ rows) =
    if same b.job_id id && (b.person_index == i) then some b.value else body_of id i rows

add_body-other :
    (other : String) (b : BodySelectionRow) (rows : List BodySelectionRow)
    → other ≢ b.job_id
    → select_where (λ x. same x.job_id other) (add_body b rows)
      ≡ select_where (λ x. same x.job_id other) rows
unfolding add_body select_where
add_body-other other b [] n = ground (arith, n)
add_body-other other b (x ∷ rows) n = ground (arith, n, add_body-other other b rows n)

add_body-keeps :
    (id : String) (i : ℕ) (value : String) (b : BodySelectionRow) (rows : List BodySelectionRow)
    → body_of id i rows ≡ some value
    → body_of id i (add_body b rows) ≡ some value
unfolding add_body
add_body-keeps id i value b [] h = cc
add_body-keeps id i value b (x ∷ rows) h = ground (arith, h, add_body-keeps id i value b rows)

module _ (initial_body : String → Person → Bool → String) (id : String) where
  add_bodies-other :
      (policy : String) (is_semantic : Bool) (other : String) (ps : List Person)
      (rows : List BodySelectionRow)
      → other ≢ id
      → select_where
          (λ x. same x.job_id other)
          (add_bodies initial_body id policy is_semantic ps rows)
        ≡ select_where (λ x. same x.job_id other) rows
  unfolding add_bodies
  add_bodies-other policy is_semantic other [] rows n = refl
  add_bodies-other policy is_semantic other (p ∷ ps) rows n =
      add_bodies-other policy is_semantic other ps _ n ∙ add_body-other other _ rows n

  add_bodies-keeps :
      (policy : String) (is_semantic : Bool) (name : String) (i : ℕ) (value : String)
      (ps : List Person) (rows : List BodySelectionRow)
      → body_of name i rows ≡ some value
      → body_of name i (add_bodies initial_body id policy is_semantic ps rows) ≡ some value
  unfolding add_bodies
  add_bodies-keeps policy is_semantic name i value [] rows h = h
  add_bodies-keeps policy is_semantic name i value (p ∷ ps) rows h =
      add_bodies-keeps policy is_semantic name i value ps _ (add_body-keeps name i value _ rows h)

  pub initialize-other_bodies :
      (result : AnalysisResult) (db : Tables) (other : String)
      → other ≢ id
      → select_where
          (λ x. same x.job_id other)
          (initialize_body_selections initial_body id result db).body_selections
        ≡ select_where (λ x. same x.job_id other) db.body_selections
  unfolding initialize_body_selections
  initialize-other_bodies result db other n =
      elim (Option-cases (policy_of (find_job id db.jobs))) [
        | inl missing ↦ rw (initialize_body_selections, missing) refl
        | inr (policy, here) ↦
            rw (initialize_body_selections, here)
              (add_bodies-other policy result.is_semantic other result.persons db.body_selections n)
      ]

  pub initialize-keeps_bodies :
      (result : AnalysisResult) (db : Tables) (name : String) (i : ℕ) (value : String)
      → body_of name i db.body_selections ≡ some value
      → body_of name i (initialize_body_selections initial_body id result db).body_selections
        ≡ some value
  unfolding initialize_body_selections
  initialize-keeps_bodies result db name i value h =
      elim (Option-cases (policy_of (find_job id db.jobs))) [
        | inl missing ↦ rw (initialize_body_selections, missing) h
        | inr (policy, here) ↦
            rw (initialize_body_selections, here)
              (add_bodies-keeps policy result.is_semantic name i value result.persons
                db.body_selections h)
      ]
