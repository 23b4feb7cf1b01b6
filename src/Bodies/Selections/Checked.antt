-- ===== src/Bodies/Selections/Checked.antt =====
-- What a choice that is read promises.
use standin_app_server.Prelude.{◌≡◌, inl, inr, Bool, false, arith, some, Bool-cases}
use standin_app_server.Bodies.{BodyPolicy, auto_recommendation, BodySelection}
use standin_app_server.Bodies.Shape.{ShapeHash}
use standin_app_server.Bodies.Children.{is_child_body}
use standin_app_server.Bodies.Choice.{is_manual}
use standin_app_server.Bodies.Choice.Ready.{resolve_body-recommends_no_child}
use standin_app_server.Bodies.Tables.{BodyPerson}
use standin_app_server.Bodies.Preferences.{Deps}
use standin_app_server.Bodies.Selections.{revalidate, settled, is_unsettled, checked}
use standin_app_server.Bodies.Persons.{BodyContext, person_body_context}

module _ (hash : ShapeHash) (deps : Deps) where
  settled-kept :
      (value : BodySelection)
      → is_manual value.intent ≡ false
      → is_unsettled hash deps value ≡ false
      → value.resolved_source ≡ some auto_recommendation
      → is_child_body value.resolved_body deps.catalog ≡ false
  unfolding is_unsettled
  settled-kept value h e source = ground (arith, e, source, h)

  settled-no_child :
      (value : BodySelection) (context : BodyContext) (policy : BodyPolicy)
      → is_manual value.intent ≡ false
      → (settled hash deps value context (some policy)).resolved_source ≡ some auto_recommendation
      → is_child_body (settled hash deps value context (some policy)).resolved_body deps.catalog
        ≡ false
  unfolding settled
  settled-no_child value context policy h = elim (Bool-cases (is_unsettled hash deps value)) [
    | inl e ↦ rw e (
        resolve_body-recommends_no_child hash deps.shapes_enabled deps.catalog _ policy
          value.recommendation)
    | inr e ↦ rw e (λ source. settled-kept value h e source)
  ]

  -- A choice that was not made by hand and is read with the policy of its job never shows a
  -- child's body on a recommendation.
  pub revalidate-recommends_no_child :
      (value : BodySelection) (person : BodyPerson) (semantic : Bool) (policy : BodyPolicy)
      → is_manual value.intent ≡ false
      → (revalidate hash deps value person semantic (some policy)).resolved_source
        ≡ some auto_recommendation
      → is_child_body
          (revalidate hash deps value person semantic (some policy)).resolved_body
          deps.catalog
        ≡ false
  unfolding revalidate checked
  revalidate-recommends_no_child value person semantic policy =
      settled-no_child value (person_body_context person semantic) policy
