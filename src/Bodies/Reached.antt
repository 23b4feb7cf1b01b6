-- ===== src/Bodies/Reached.antt =====
-- The states that the requests on bodies lead to.
use standin_app_server.Prelude.{
  ℕ, ◌≡◌, inl, inr, refl, sym, ap, subst, ◌∙◌, Bool, true, false, List, if◌then◌else◌, String,
  Option, none, some, done, >>=-eq-done, done-inj,
}
use standin_app_server.Bodies.{
  BodyRef, BodyMode, BodyPreferences, BodyPolicy, ResolvedSource, manual, last_used,
  auto_recommendation, catalog_default_fallback, fixed_default, user_default_fallback,
  BodySelection,
}
use standin_app_server.Bodies.Shape.{ShapeHash}
use standin_app_server.Bodies.Tables.{Mutation, SelectionChange, BodyResult, BodyDb}
use standin_app_server.Bodies.Preferences.{Deps, read_preferences}
use standin_app_server.Bodies.Selections.{read_selection, is_some}
use standin_app_server.Bodies.Persons.{found, completed_job}
use standin_app_server.Bodies.Tables.{CardChange}
use standin_app_server.Bodies.Preferences.{write_preferences, write_cards}
use standin_app_server.Bodies.Preferences.Cards.{
  HasSoundCards, store-HasSoundCards, write_preferences-HasSoundCards, write_cards-HasSoundCards,
}
use standin_app_server.Bodies.Selections.Writes.{
  remember_body, last_used_of, record_last_used, save_selection, write_selection,
  ensure_semantic_body_selection, initialize_body_selections, initialize_with, capture_body_policy,
  selection, put_selection, options,
}
use standin_app_server.Bodies.Selections.Shown.{BodyOption, body_options}
use standin_app_server.Bodies.Selections.Writes.Repeats.{WasRepeated, write_selection-cases}

-- One request of a client that succeeds.
pub data Step (hash : ShapeHash) : BodyDb → BodyDb → Type 0 where
  saves_preferences :
      (deps : Deps) (owner : String) (request : Mutation) (mode : BodyMode) (db after : BodyDb)
      (value : BodyPreferences)
      → write_preferences deps owner request mode db ≡ done (after, value)
      → Step hash db after
  saves_cards :
      (deps : Deps) (owner : String) (request : Mutation) (change : CardChange) (db after : BodyDb)
      (value : BodyPreferences)
      → write_cards deps owner request change db ≡ done (after, value)
      → Step hash db after
  reads_selection :
      (deps : Deps) (owner job : String) (index : ℕ) (db after : BodyDb) (value : BodySelection)
      → selection hash deps db owner job index ≡ done (after, value)
      → Step hash db after
  saves_selection :
      (deps : Deps) (owner job : String) (index : ℕ) (change : SelectionChange) (db after : BodyDb)
      (value : BodySelection)
      → put_selection hash deps db owner job index change ≡ done (after, value)
      → Step hash db after
  reads_options :
      (deps : Deps) (owner job : String) (index : ℕ) (db after : BodyDb)
      (value : String × List (BodyOption hash deps))
      → options hash deps db owner job index ≡ done (after, value)
      → Step hash db after

pub data Reaches (hash : ShapeHash) : BodyDb → BodyDb → Type 0 where
  here : (db : BodyDb) → Reaches hash db db
  next : (db mid after : BodyDb) → Step hash db mid → Reaches hash mid after → Reaches hash db after

-- The cards are those of the rows of the preferences.
by_rows :
    (db after : BodyDb)
    → after.body_preferences ≡ db.body_preferences
    → HasSoundCards db
    → HasSoundCards after
unfolding read_preferences
by_rows db after e all owner = rw e (all owner)

module _ (hash : ShapeHash) (deps : Deps) where
  last_used_of-HasSoundCards :
      (owner : String) (value : BodySelection) (body : Option BodyRef)
      (source : Option ResolvedSource) (db : BodyDb)
      → HasSoundCards db
      → HasSoundCards (last_used_of hash deps owner value body source db)
  unfolding last_used_of remember_body
  last_used_of-HasSoundCards owner value (some body) (some manual) db all =
      store-HasSoundCards owner _ db (all owner) all
  last_used_of-HasSoundCards owner value (some body) (some last_used) db all = all
  last_used_of-HasSoundCards owner value (some body) (some auto_recommendation) db all = all
  last_used_of-HasSoundCards owner value (some body) (some catalog_default_fallback) db all = all
  last_used_of-HasSoundCards owner value (some body) (some fixed_default) db all = all
  last_used_of-HasSoundCards owner value (some body) (some user_default_fallback) db all = all
  last_used_of-HasSoundCards owner value (some body) none db all = all
  last_used_of-HasSoundCards owner value none source db all = all

  initialize_with-rows :
      (job : String) (result : BodyResult) (policy : Option BodyPolicy) (db : BodyDb)
      → (initialize_with hash deps job result policy db).body_preferences ≡ db.body_preferences
  unfolding initialize_with
  initialize_with-rows job result none db = refl
  initialize_with-rows job result (some policy) db = refl

  initialize-rows :
      (job owner : String) (result : BodyResult) (semantic captured : Bool) (db : BodyDb)
      → (if semantic
          then initialize_body_selections hash deps job result
              (if captured then db else capture_body_policy hash deps job owner db)
          else db).body_preferences
        ≡ db.body_preferences
  unfolding initialize_body_selections capture_body_policy
  initialize-rows job owner result false captured db = refl
  initialize-rows job owner result true true db = initialize_with-rows job result _ db
  initialize-rows job owner result true false db = initialize_with-rows job result _ _

  ensure-rows :
      (owner job : String) (db after : BodyDb)
      → ensure_semantic_body_selection hash deps owner job db ≡ done after
      → after.body_preferences ≡ db.body_preferences
  unfolding ensure_semantic_body_selection
  ensure-rows owner job db after h =
      let (p, one, h₁) = >>=-eq-done (completed_job db owner job) _ _ h in
      ap (λ d. d.body_preferences) (sym (done-inj _ _ h₁))
      ∙ initialize-rows job owner p.1 p.1.is_semantic (is_some p.0.body_policy_json) db

  write_selection-HasSoundCards :
      (owner job : String) (index : ℕ) (change : SelectionChange) (db after : BodyDb)
      (value : BodySelection)
      → HasSoundCards db
      → write_selection hash deps db owner job index change ≡ done (after, value)
      → HasSoundCards after
  unfolding WasRepeated save_selection record_last_used
  write_selection-HasSoundCards owner job index change db after value all h =
      let (owned, one, how) =
        write_selection-cases hash deps owner job index change db after value h in
      elim how [
        | inl (old, found, answer, kept) ↦ subst HasSoundCards kept all
        | inr made ↦ subst HasSoundCards made.after_lem (
            last_used_of-HasSoundCards owner value value.resolved_body value.resolved_source _
              (by_rows db _ refl all))
      ]

Step-HasSoundCards :
    (hash : ShapeHash) (db after : BodyDb)
    → Step hash db after
    → HasSoundCards db
    → HasSoundCards after
unfolding selection put_selection options
Step-HasSoundCards hash _ _ (saves_preferences deps owner request mode db after value h) all =
    write_preferences-HasSoundCards deps owner request mode db after value all h
Step-HasSoundCards hash _ _ (saves_cards deps owner request change db after value h) all =
    write_cards-HasSoundCards deps owner request change db after value all h
Step-HasSoundCards hash _ _ (reads_selection deps owner job index db after value h) all =
    let (mid, one, h₁) =
      >>=-eq-done (ensure_semantic_body_selection hash deps owner job db) _ _ h in
    let (read, two, h₂) = >>=-eq-done (read_selection hash deps mid owner job index) _ _ h₁ in
    subst HasSoundCards (ap (λ p. p.0) (done-inj _ _ h₂))
      (by_rows db mid (ensure-rows hash deps owner job db mid one) all)
Step-HasSoundCards hash _ _ (saves_selection deps owner job index change db after value h) all =
    let (mid, one, h₁) =
      >>=-eq-done (ensure_semantic_body_selection hash deps owner job db) _ _ h in
    write_selection-HasSoundCards hash deps owner job index change mid after value
      (by_rows db mid (ensure-rows hash deps owner job db mid one) all) h₁
Step-HasSoundCards hash _ _ (reads_options deps owner job index db after value h) all =
    let (mid, one, h₁) =
      >>=-eq-done (ensure_semantic_body_selection hash deps owner job db) _ _ h in
    let (answer, two, h₂) = >>=-eq-done (body_options hash deps mid owner job index) _ _ h₁ in
    subst HasSoundCards (ap (λ p. p.0) (done-inj _ _ h₂))
      (by_rows db mid (ensure-rows hash deps owner job db mid one) all)

-- From a state in which no installation has more than 48 cards and every card has a name of 1 to
-- 24 characters, the requests of clients that succeed, in any order, lead only to such states.
pub Reaches-HasSoundCards :
    (hash : ShapeHash) (db after : BodyDb)
    → Reaches hash db after
    → HasSoundCards db
    → HasSoundCards after
Reaches-HasSoundCards hash _ _ (here db) all = all
Reaches-HasSoundCards hash _ _ (next db mid after step rest) all =
    Reaches-HasSoundCards hash mid after rest (Step-HasSoundCards hash db mid step all)
