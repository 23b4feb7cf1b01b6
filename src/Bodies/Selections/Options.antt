-- ===== src/Bodies/Selections/Options.antt =====
-- The bodies that a client is offered are those that it can choose.
use standin_app_server.Prelude.{
  ℕ, suc, ◌≡◌, refl, sym, subst, true, false, List, [], ◌∷◌, arith, ◌==◌, String, none, some,
  length, done,
}
use standin_app_server.Bodies.{
  BodyRef, BodyAsset, BodyPolicy, BodyRecommendation, manual_intent, manual, ready, BodySelection,
}
use standin_app_server.Bodies.Shape.{ShapeHash, find_character}
use standin_app_server.Bodies.Children.{automatic_recommendation}
use standin_app_server.Bodies.Model.{body_eligible}
use standin_app_server.Bodies.Choice.{
  Request, resolve_body, initial_selection, use_body, use_intent, use_poses,
}
use standin_app_server.Bodies.Tables.{SelectionChange, expect}
use standin_app_server.Bodies.Preferences.{Deps}
use standin_app_server.Bodies.Selections.{decide, resolve, chosen_shape}
use standin_app_server.Bodies.Persons.{BodyContext, person_body_context, OwnedPerson}
use standin_app_server.Bodies.Selections.Shown.{reasons, option_of}

module _ (hash : ShapeHash) (deps : Deps) where
  use_poses-manual :
      (q : Request) (policy : BodyPolicy) (rec : BodyRecommendation) (state : BodySelection)
      (poses : List String)
      → (length poses == 0) ≡ false
      → q.intent ≡ manual_intent
      → use_poses hash deps.shapes_enabled deps.catalog state q policy rec poses
        ≡ use_body deps.catalog state q q.manual manual
  unfolding use_poses use_intent
  use_poses-manual q policy rec state [] n e = cc
  use_poses-manual q policy rec state (p ∷ ps) n e = rw e refl

  resolve_body-manual :
      (q : Request) (policy : BodyPolicy) (rec : BodyRecommendation) (r : BodyRef)
      → (length q.poses == 0) ≡ false
      → q.intent ≡ manual_intent
      → q.manual ≡ some r
      → body_eligible (some r) deps.catalog q.poses q.preview_only ≡ true
      → ((resolve hash deps q policy rec).resolution_status ≡ ready)
        × ((resolve hash deps q policy rec).resolved_body ≡ some r)
  unfolding resolve_body use_body
  resolve_body-manual q policy rec r poses intent chosen fits =
      let advice = automatic_recommendation rec deps.catalog in
      subst (λ s. (s.resolution_status ≡ ready) × (s.resolved_body ≡ some r))
        (sym (use_poses-manual q policy advice (initial_selection q advice) q.poses poses intent))
        (rw (chosen, fits) (refl, refl))

  option_of-selectable :
      (context : BodyContext) (a : BodyAsset)
      → (option_of hash deps context a).selectable ≡ true
      → ((length context.poses == 0) ≡ false)
        × (body_eligible (some a.ref) deps.catalog context.poses context.preview_only ≡ true)
        × (deps.check a.ref.character_id ≡ true)
  unfolding option_of reasons
  option_of-selectable context a h = (ground (arith, h), ground (arith, h), ground (arith, h))

  -- The plain body of an option, chosen by hand.
  abbrev pub pick : BodyAsset → String → ℕ → SelectionChange
  pick a id revision = record {
    mutation = record { expected_revision = revision; mutation_id = id };
    intent = manual_intent;
    character_id = some a.ref.character_id;
    shape = none;
  }

  -- An option that is selectable, for the first body of its character in the catalog, can be
  -- chosen by hand as it is with the current revision, and the choice is ready and shows that
  -- body.
  pub option_of-decide :
      (index : ℕ) (owned : OwnedPerson) (current : BodySelection) (a : BodyAsset) (id : String)
      → find_character a.ref.character_id deps.catalog.assets ≡ some a
      → (option_of hash deps (person_body_context owned.person owned.semantic) a).selectable ≡ true
      → (value : BodySelection) × (decide hash deps
            (pick a id current.selection_revision)
            index
            owned
            current
          ≡ done value)
        × (value.resolved_body ≡ some a.ref)
        × (value.resolution_status ≡ ready)
  unfolding decide expect chosen_shape
  option_of-decide index owned current a id here h =
      let context = person_body_context owned.person owned.semantic in
      let (poses, fits, ok) = option_of-selectable context a h in
      let q : Request = record {
        person_index = index;
        poses = context.poses;
        intent = manual_intent;
        manual = some a.ref;
        revision = suc current.selection_revision;
        shape = none;
        preview_only = context.preview_only;
      } in
      let (status, body) =
        resolve_body-manual q owned.policy current.recommendation a.ref poses refl refl fits in
      (
        resolve hash deps q owned.policy current.recommendation,
        rw (here, poses, fits, status, body, ok) (ground arith),
        body,
        status,
      )
