-- ===== src/Jobs/Records/Laws.antt =====
-- What the tables hold after the records of an analysis are written.
use standin_app_server.Prelude.{
  ℕ, ◌≡◌, ◌≢◌, refl, ap, sym, ◌∙◌, Bool, true, false, ◌&&◌, ◌||◌, List, [], ◌∷◌, ◌++◌, map, arith,
  ◌==◌, String, All,
}
use standin_app_server.Jobs.Rows.{Candidate, Person, same}
use standin_app_server.Jobs.Tables.{Tables, PersonRow, CandidateRow, done}
use standin_app_server.Jobs.Lifecycle.{delete_where}
use standin_app_server.Jobs.Records.{
  RefineContext, PersonSignals, person_row, candidate_row, any_of, insert_row, same_person,
  same_candidate, insert_candidates, insert_people,
}

module _ {A : Type 0} where
  any_of-append :
      (test : A → Bool) (rows : List A) (a : A)
      → any_of test (rows ++ (a ∷ [])) ≡ (any_of test rows || test a)
  unfolding any_of
  any_of-append test [] a = ground arith
  any_of-append test (r ∷ rows) a = ground (arith, any_of-append test rows a)

  pub any_of-delete :
      (test gone : A → Bool) (rows : List A)
      → ((a : A) → test a ≡ true → gone a ≡ true)
      → any_of test (delete_where gone rows) ≡ false
  unfolding any_of delete_where
  any_of-delete test gone [] h = refl
  any_of-delete test gone (r ∷ rows) h = ground (arith, any_of-delete test gone rows h, h r)

  append_one : (xs : List A) (a : A) (ys : List A) → (xs ++ (a ∷ [])) ++ ys ≡ xs ++ (a ∷ ys)
  append_one [] a ys = refl
  append_one (x ∷ xs) a ys = rw (append_one xs a ys)

  pub append_nil : (xs : List A) → xs ++ [] ≡ xs
  append_nil [] = refl
  append_nil (x ∷ xs) = rw (append_nil xs)

-- A result whose people have different indices, and each person's candidates different ids.
abbrev pub HasDistinctCandidates : List Candidate → Type 0
HasDistinctCandidates [] = Unit
HasDistinctCandidates (c ∷ cs) = All (λ d. d.id ≢ c.id) cs × HasDistinctCandidates cs

abbrev pub HasDistinctPeople : List Person → Type 0
HasDistinctPeople [] = Unit
HasDistinctPeople (p ∷ ps) =
    All (λ q. q.person_index ≢ p.person_index) ps
    × (HasDistinctCandidates p.candidates × HasDistinctPeople ps)

module _ (id : String) where
  candidate_test : ℕ → String → CandidateRow → Bool
  candidate_test i c b = same id b.job_id && ((i == b.person_index) && same c b.candidate_id)

  unfoldable pub person_candidates : ℕ → CandidateRow → Bool
  person_candidates i b = same id b.job_id && (i == b.person_index)

  unfoldable pub person_test : ℕ → PersonRow → Bool
  person_test i b = same id b.job_id && (i == b.person_index)

  free_after :
      (i : ℕ) (c : Candidate) (cs : List Candidate) (rows : List CandidateRow)
      → All (λ d. d.id ≢ c.id) cs
      → All (λ d. any_of (candidate_test i d.id) rows ≡ false) cs
      → All (λ d. any_of (candidate_test i d.id) (rows ++ (candidate_row id i c ∷ [])) ≡ false) cs
  unfolding candidate_test candidate_row
  free_after i c [] rows n f = tt
  free_after i c (d ∷ ds) rows (n, ns) (f, fs) = (
    ground (arith, any_of-append (candidate_test i d.id) rows (candidate_row id i c), n, f),
    free_after i c ds rows ns fs,
  )

  insert_candidates-done :
      (i : ℕ) (cs : List Candidate) (rows : List CandidateRow)
      → HasDistinctCandidates cs
      → All (λ d. any_of (candidate_test i d.id) rows ≡ false) cs
      → insert_candidates id i cs rows ≡ done (rows ++ map (candidate_row id i) cs)
  unfolding insert_candidates insert_row same_candidate candidate_row candidate_test
  insert_candidates-done i [] rows d f = ap done (sym (append_nil rows))
  insert_candidates-done i (c ∷ cs) rows (n, d) (f, fs) = rw f (
      insert_candidates-done i cs (rows ++ (candidate_row id i c ∷ [])) d
        (free_after i c cs rows n fs)
      ∙ ap done (append_one rows (candidate_row id i c) (map (candidate_row id i) cs)))

  unfoldable pub candidates_of : List Person → List CandidateRow
  candidates_of [] = []
  candidates_of (p ∷ ps) = map (candidate_row id p.person_index) p.candidates ++ candidates_of ps

  unused :
      (i : ℕ) (c : String) (rows : List CandidateRow)
      → any_of (person_candidates i) rows ≡ false
      → any_of (candidate_test i c) rows ≡ false
  unfolding any_of person_candidates candidate_test
  unused i c [] f = refl
  unused i c (r ∷ rows) f = ground (arith, unused i c rows)

  unused-All :
      (i : ℕ) (cs : List Candidate) (rows : List CandidateRow)
      → any_of (person_candidates i) rows ≡ false
      → All (λ d. any_of (candidate_test i d.id) rows ≡ false) cs
  unused-All i [] rows f = tt
  unused-All i (c ∷ cs) rows f = (unused i c.id rows f, unused-All i cs rows f)

  other_candidates :
      (i j : ℕ) (cs : List Candidate) (rows : List CandidateRow)
      → j ≢ i
      → any_of (person_candidates j) rows ≡ false
      → any_of (person_candidates j) (rows ++ map (candidate_row id i) cs) ≡ false
  unfolding any_of person_candidates candidate_row
  other_candidates i j [] [] n f = refl
  other_candidates i j (c ∷ cs) [] n f = ground (arith, other_candidates i j cs [] n refl)
  other_candidates i j cs (r ∷ rows) n f = ground (arith, other_candidates i j cs rows n)

  module _ (quality_allowed : Bool) (contexts : List RefineContext)
      (signals : List PersonSignals) where
    unfoldable pub row_of : Person → PersonRow
    row_of p = person_row id quality_allowed contexts signals p

    people_free :
        (p : Person) (ps : List Person) (rows : List PersonRow)
        → All (λ q. q.person_index ≢ p.person_index) ps
        → All (λ q. any_of (person_test q.person_index) rows ≡ false) ps
        → All (λ q. any_of (person_test q.person_index) (rows ++ (row_of p ∷ [])) ≡ false) ps
    unfolding person_test row_of person_row
    people_free p [] rows n f = tt
    people_free p (q ∷ qs) rows (n, ns) (f, fs) = (
      ground (arith, any_of-append (person_test q.person_index) rows (row_of p), n, f),
      people_free p qs rows ns fs,
    )

    candidates_free :
        (p : Person) (ps : List Person) (rows : List CandidateRow)
        → All (λ q. q.person_index ≢ p.person_index) ps
        → All (λ q. any_of (person_candidates q.person_index) rows ≡ false) ps
        → All
            (λ q.
              any_of
                (person_candidates q.person_index)
                (rows ++ map (candidate_row id p.person_index) p.candidates)
              ≡ false)
            ps
    candidates_free p [] rows n f = tt
    candidates_free p (q ∷ qs) rows (n, ns) (f, fs) = (
      other_candidates p.person_index q.person_index p.candidates rows n f,
      candidates_free p qs rows ns fs,
    )

    append_assoc : {A : Type 0} (xs ys zs : List A) → (xs ++ ys) ++ zs ≡ xs ++ (ys ++ zs)
    append_assoc [] ys zs = refl
    append_assoc (x ∷ xs) ys zs = rw (append_assoc xs ys zs)

    pub insert_people-done :
        (ps : List Person) (db : Tables)
        → HasDistinctPeople ps
        → All (λ q. any_of (person_test q.person_index) db.people ≡ false) ps
        → All (λ q. any_of (person_candidates q.person_index) db.candidates ≡ false) ps
        → insert_people id quality_allowed contexts signals ps db
          ≡ done (record db {
            people = db.people ++ map row_of ps;
            candidates = db.candidates ++ candidates_of ps;
          })
    unfolding insert_people insert_row same_person person_test person_row candidates_of row_of
    insert_people-done [] db d f g = rw (append_nil db.people, append_nil db.candidates)
    insert_people-done (p ∷ ps) db (n, (dc, d)) (f, fs) (g, gs) =
        rw
          (
            f,
            insert_candidates-done p.person_index p.candidates db.candidates dc
                (unused-All p.person_index p.candidates db.candidates g),
          )
          (insert_people-done ps
              (record db {
                people = db.people ++ (row_of p ∷ []);
                candidates = db.candidates ++ map (candidate_row id p.person_index) p.candidates;
              })
              d (people_free p ps db.people n fs) (candidates_free p ps db.candidates n gs)
            ∙ rw (
              append_one db.people (row_of p) (map row_of ps),
              append_assoc db.candidates (map (candidate_row id p.person_index) p.candidates)
                  (candidates_of ps),
            ))
