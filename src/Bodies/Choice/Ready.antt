-- ===== src/Bodies/Choice/Ready.antt =====
-- What a resolved choice promises.
use standin_app_server.Prelude.{
  ◌≡◌, inl, inr, refl, Bool, true, false, ◌&&◌, List, [], ◌∷◌, if◌then◌else◌, arith, String, Option,
  none, some, Tried-cases, Bool-cases,
}
use standin_app_server.Bodies.{
  BodyShape, BodyRef, BodyCatalog, BodyMode, auto_mode, last_used_mode, LastBody, BodyPolicy,
  BodyRecommendation, BodyIntent, inherit, manual_intent, auto, manual, last_used,
  auto_recommendation, ready, body_unavailable, body_not_applicable, BodySelection,
}
use standin_app_server.Bodies.Shape.{ShapeHash}
use standin_app_server.Bodies.Children.{automatic_recommendation, is_child_body}
use standin_app_server.Bodies.Model.{body_eligible, normalize_preferences, last_used_body}
use standin_app_server.Bodies.Choice.{
  Request, initial_selection, is_available, use_body, use_male_base, remembered_shape, use_last,
  use_recommended, use_mode, use_intent, use_poses, resolve_body, stored_or,
}

pub automatic-is_child_body :
    (rec : BodyRecommendation) (catalog : BodyCatalog)
    → is_child_body (automatic_recommendation rec catalog).body catalog ≡ false
unfolding automatic_recommendation is_child_body
automatic-is_child_body rec catalog = elim (Bool-cases (is_child_body rec.body catalog)) [
  | inl e ↦ rw e refl
  | inr e ↦ rw e e
]

module _ (hash : ShapeHash) (enabled : Bool) (catalog : BodyCatalog) where
  -- What holds of every body that may be used holds of the resolution.
  module _ (q : Request) (policy : BodyPolicy) (rec : BodyRecommendation) where
    abbrev advice : BodyRecommendation
    advice = automatic_recommendation rec catalog

    abbrev start : BodySelection
    start = initial_selection q advice

    module _ (P : BodySelection → Type 0) (base : P (use_male_base catalog start q policy))
        (remembered : (b : BodyRef) (shape : Option BodyShape)
          → P (record (use_body catalog start q (some b) last_used) { shape = shape }))
        (recommended : P (use_body catalog start q advice.body auto_recommendation))
        (chosen : P (use_body catalog start q q.manual manual))
        (nothing : P (record start { resolution_status = body_not_applicable })) where
      use_last-all :
          (last : Option LastBody) → P (use_last hash enabled catalog start q policy last)
      unfolding use_last
      use_last-all none = base
      use_last-all (some last) =
          elim (Bool-cases (body_eligible (some last.body) catalog q.poses q.preview_only)) [
            | inl e ↦ rw e (elim (Tried-cases (remembered_shape hash enabled catalog last)) [
              | inl (shape, h) ↦ rw h (remembered last.body shape)
              | inr (x, h) ↦ rw h base
            ])
            | inr e ↦ rw e base
          ]

      use_recommended-all : P (use_recommended catalog start q policy advice)
      unfolding use_recommended
      use_recommended-all =
          elim (Bool-cases (
            is_available advice.status
            && body_eligible advice.body catalog q.poses q.preview_only)) [
              | inl e ↦ rw e recommended
              | inr e ↦ rw e base
            ]

      use_mode-all :
          (mode : BodyMode) → P (use_mode hash enabled catalog start q policy advice mode)
      unfolding use_mode
      use_mode-all auto_mode = use_recommended-all
      use_mode-all last_used_mode = use_last-all (
          stored_or policy.last_used (
            last_used_body hash enabled (normalize_preferences policy.preferences).last_used
              catalog))

      use_intent-all :
          (intent : BodyIntent) → P (use_intent hash enabled catalog start q policy advice intent)
      unfolding use_intent
      use_intent-all manual_intent = chosen
      use_intent-all inherit = use_mode-all (normalize_preferences policy.preferences).mode
      use_intent-all auto = use_recommended-all

      use_poses-all :
          (poses : List String) → P (use_poses hash enabled catalog start q policy advice poses)
      unfolding use_poses
      use_poses-all [] = nothing
      use_poses-all (p ∷ ps) = use_intent-all q.intent

      pub resolve_body-all : P (resolve_body hash enabled catalog q policy rec)
      unfolding resolve_body
      resolve_body-all = use_poses-all q.poses

  ready_of :
      (ref : Option BodyRef) (poses : List String) (preview_only : Bool)
      → (if body_eligible ref catalog poses preview_only then ready else body_unavailable) ≡ ready
      → body_eligible ref catalog poses preview_only ≡ true
  ready_of ref poses preview_only h = ground (arith, h)

  -- A choice that is ready has a body that the catalog has for its poses, or for a preview of them.
  pub resolve_body-ready :
      (q : Request) (policy : BodyPolicy) (rec : BodyRecommendation)
      → (resolve_body hash enabled catalog q policy rec).resolution_status ≡ ready
      → body_eligible
          (resolve_body hash enabled catalog q policy rec).resolved_body
          catalog
          q.poses
          q.preview_only
        ≡ true
  unfolding use_body use_male_base initial_selection
  resolve_body-ready q policy rec =
      resolve_body-all q policy rec
        (λ s.
          s.resolution_status ≡ ready
          → body_eligible s.resolved_body catalog q.poses q.preview_only ≡ true)
        (λ h. ready_of _ q.poses q.preview_only h)
        (λ b shape h. ready_of _ q.poses q.preview_only h)
        (λ h. ready_of _ q.poses q.preview_only h) (λ h. ready_of _ q.poses q.preview_only h)
        (λ h. cc)

  -- A body that stands for a recommendation is never a child's.
  pub resolve_body-recommends_no_child :
      (q : Request) (policy : BodyPolicy) (rec : BodyRecommendation)
      → (resolve_body hash enabled catalog q policy rec).resolved_source ≡ some auto_recommendation
      → is_child_body (resolve_body hash enabled catalog q policy rec).resolved_body catalog ≡ false
  unfolding use_body use_male_base initial_selection
  resolve_body-recommends_no_child q policy rec =
      resolve_body-all q policy rec
        (λ s.
          s.resolved_source ≡ some auto_recommendation
          → is_child_body s.resolved_body catalog ≡ false)
        (λ h. cc) (λ b shape h. cc) (λ h. automatic-is_child_body rec catalog) (λ h. cc) (λ h. cc)

  pub resolve_body-revision :
      (q : Request) (policy : BodyPolicy) (rec : BodyRecommendation)
      → (resolve_body hash enabled catalog q policy rec).selection_revision ≡ q.revision
  unfolding use_body use_male_base initial_selection
  resolve_body-revision q policy rec =
      resolve_body-all q policy rec (λ s. s.selection_revision ≡ q.revision) refl (λ b shape. refl)
        refl refl refl

  pub resolve_body-intent :
      (q : Request) (policy : BodyPolicy) (rec : BodyRecommendation)
      → (resolve_body hash enabled catalog q policy rec).intent ≡ q.intent
  unfolding use_body use_male_base initial_selection
  resolve_body-intent q policy rec =
      resolve_body-all q policy rec (λ s. s.intent ≡ q.intent) refl (λ b shape. refl) refl refl refl
