-- ===== src/Jobs/Records/Replaced.antt =====
-- Rows of a job that are deleted and written again, among those of other jobs.
use standin_app_server.Prelude.{
  ◌≡◌, ◌≢◌, refl, ◌∙◌, Bool, List, [], ◌∷◌, ◌++◌, map, arith, String, All,
}
use standin_app_server.Jobs.Rows.{Candidate, Person, same}
use standin_app_server.Jobs.Lifecycle.{delete_where}
use standin_app_server.Jobs.Lifecycle.Deletion.{
  select_where, select-delete, select-delete_apart, same_apart,
}
use standin_app_server.Jobs.Records.{RefineContext, PersonSignals, person_row, candidate_row}
use standin_app_server.Jobs.Records.Laws.{candidates_of, append_nil}

module _ {A : Type 0} where
  pub select-append :
      (test : A → Bool) (xs ys : List A)
      → select_where test (xs ++ ys) ≡ select_where test xs ++ select_where test ys
  unfolding select_where
  select-append test [] ys = refl
  select-append test (x ∷ xs) ys = ground (arith, select-append test xs ys)

  -- Rows that replace those of an id.
  module _ (column : A → String) (id : String) where
    pub select_own :
        (rows : List A)
        → All (λ a. column a ≡ id) rows
        → select_where (λ a. same (column a) id) rows ≡ rows
    unfolding select_where
    select_own [] h = refl
    select_own (a ∷ rows) (h, hs) = ground (arith, h, select_own rows hs)

    pub select_other :
        (other : String) (rows : List A)
        → other ≢ id
        → All (λ a. column a ≡ id) rows
        → select_where (λ a. same (column a) other) rows ≡ []
    unfolding select_where
    select_other other [] n h = refl
    select_other other (a ∷ rows) n (h, hs) = ground (arith, h, n, select_other other rows n hs)

    pub select-replaced :
        (rows new : List A)
        → All (λ a. column a ≡ id) new
        → select_where
            (λ a. same (column a) id)
            (delete_where (λ a. same (column a) id) rows ++ new)
          ≡ new
    select-replaced rows new own =
        select-append _ (delete_where (λ a. same (column a) id) rows) new
        ∙ rw (select-delete (λ a. same (column a) id) rows) (select_own new own)

    pub select-replaced_other :
        (other : String) (rows new : List A)
        → other ≢ id
        → All (λ a. column a ≡ id) new
        → select_where
            (λ a. same (column a) other)
            (delete_where (λ a. same (column a) id) rows ++ new)
          ≡ select_where (λ a. same (column a) other) rows
    select-replaced_other other rows new n own =
        select-append _ (delete_where (λ a. same (column a) id) rows) new
        ∙ rw (select_other other new n own)
            (append_nil _ ∙ select-delete_apart _ _ rows (λ a. same_apart (column a) other id n))

module _ (id : String) where
  pub people-own :
      (quality_allowed : Bool) (contexts : List RefineContext) (signals : List PersonSignals)
      (ps : List Person)
      → All (λ p. p.job_id ≡ id) (map (person_row id quality_allowed contexts signals) ps)
  unfolding person_row
  people-own quality_allowed contexts signals [] = tt
  people-own quality_allowed contexts signals (p ∷ ps) =
      (refl, people-own quality_allowed contexts signals ps)

  pub candidates-own : (ps : List Person) → All (λ c. c.job_id ≡ id) (candidates_of id ps)
  unfolding candidates_of candidate_row
  candidates-own [] = tt
  candidates-own (p ∷ ps) = each p.candidates (candidates-own ps)
    where
      each :
          (cs : List Candidate)
          → All (λ c. c.job_id ≡ id) (candidates_of id ps)
          → All
              (λ c. c.job_id ≡ id)
              (map (candidate_row id p.person_index) cs ++ candidates_of id ps)
      each [] own = own
      each (c ∷ cs) own = (refl, each cs own)
