-- ===== src/Bodies/Selections/Decided.antt =====
-- The choices that a change of the user makes.
use standin_app_server.Prelude.{
  ℕ, suc, ◌≡◌, refl, ap, subst, true, not, ◌&&◌, arith, ◌==◌, String, Option, none, some, length,
  done, throw_if, >>=-eq-done, done-inj,
}
use standin_app_server.Bodies.{
  BodyRef, ResolutionStatus, ready, needs_selection, body_unavailable, body_not_applicable,
  BodySelection,
}
use standin_app_server.Bodies.Shape.{ShapeHash}
use standin_app_server.Bodies.Model.{body_eligible}
use standin_app_server.Bodies.Choice.{Request, is_manual}
use standin_app_server.Bodies.Choice.Ready.{
  resolve_body-ready, resolve_body-revision, resolve_body-intent,
}
use standin_app_server.Bodies.Tables.{BodyError, body_error, SelectionChange, expect}
use standin_app_server.Bodies.Preferences.{Deps}
use standin_app_server.Bodies.Selections.{
  decide, is_some, is_ready, find_manual, manual_eligible, refusal, asset_ref, resolve,
  chosen_shape,
}
use standin_app_server.Bodies.Persons.{BodyContext, person_body_context, OwnedPerson, found}

-- A choice that can be shown: there is a body, the catalog has it for the poses of the person (or for a
-- preview), and the converter has its character.
pub record IsOffered (deps : Deps) (context : BodyContext) (value : BodySelection) : Type 0 where
  pub body : BodyRef
  pub resolved : value.resolved_body ≡ some body
  pub is_eligible : body_eligible (some body) deps.catalog context.poses context.preview_only ≡ true
  pub available_lem : deps.check body.character_id ≡ true

expect-done : (a w : ℕ) (code : String) (u : Unit {0}) → expect a w code ≡ done u → a ≡ w
unfolding expect
expect-done a w code u h = ground (arith, h)

pub found-done :
    {A : Type 0} (o : Option A) (e : BodyError) (a : A) → found o e ≡ done a → o ≡ some a
found-done none e a h = cc
found-done (some b) e a h = ap some (done-inj _ _ h)

is_ready-done : (s : ResolutionStatus) → is_ready s ≡ true → s ≡ ready
is_ready-done ready h = refl
is_ready-done needs_selection h = cc
is_ready-done body_unavailable h = cc
is_ready-done body_not_applicable h = cc

module _ (hash : ShapeHash) (deps : Deps) where
  -- A change is made only of the revision it names, and what it makes can be shown.
  pub decide-IsOffered :
      (change : SelectionChange) (index : ℕ) (owned : OwnedPerson) (current value : BodySelection)
      → decide hash deps change index owned current ≡ done value
      → IsOffered deps (person_body_context owned.person owned.semantic) value
        × (current.selection_revision ≡ change.mutation.expected_revision)
        × (value.selection_revision ≡ suc current.selection_revision)
        × (value.intent ≡ change.intent)
  unfolding decide
  decide-IsOffered change index owned current value h =
      let context = person_body_context owned.person owned.semantic in
      let asset = find_manual hash deps change.character_id in
      let (u, one, h₁) =
        >>=-eq-done
          (expect current.selection_revision change.mutation.expected_revision
            "BODY_SELECTION_CONFLICT")
          _ _ h in
      let (u₂, two, h₂) =
        >>=-eq-done (throw_if (length context.poses == 0) (body_error "BODY_NOT_APPLICABLE" 409)) _
          _ h₁ in
      let (u₃, three, h₃) =
        >>=-eq-done
          (throw_if (is_manual change.intent && not (is_some asset))
            (body_error "INVALID_CHARACTER" 400))
          _ _ h₂ in
      let (u₄, four, h₄) =
        >>=-eq-done
          (throw_if (not (manual_eligible hash deps asset context))
            (body_error "BODY_POSE_UNSUPPORTED" 409))
          _ _ h₃ in
      let (shape, five, h₅) = >>=-eq-done (chosen_shape hash deps change asset) _ _ h₄ in
      let q : Request = record {
        person_index = index;
        poses = context.poses;
        intent = change.intent;
        manual = asset_ref asset;
        revision = suc current.selection_revision;
        shape = shape;
        preview_only = context.preview_only;
      } in
      let made = resolve hash deps q owned.policy current.recommendation in
      let (u₆, six, h₆) =
        >>=-eq-done (throw_if (not (is_ready made.resolution_status)) (refusal change.intent)) _ _
          h₅ in
      let (body, seven, h₇) =
        >>=-eq-done (found made.resolved_body (refusal change.intent)) _ _ h₆ in
      let (u₈, eight, h₈) =
        >>=-eq-done
          (throw_if (not (deps.check body.character_id)) (body_error "BODY_UNAVAILABLE" 409)) _ _
          h₇ in
      let is_body = found-done made.resolved_body _ body seven in
      let fits =
        resolve_body-ready hash deps.shapes_enabled deps.catalog q owned.policy
          current.recommendation (is_ready-done made.resolution_status (ground (arith, six))) in
      (
        subst (IsOffered deps context) (done-inj made value h₈) (record {
          body = body;
          resolved = is_body;
          is_eligible =
              subst (λ b. body_eligible b deps.catalog context.poses context.preview_only ≡ true)
                is_body fits;
          available_lem = ground (arith, eight);
        }),
        expect-done _ _ _ u one,
        subst (λ v. v.selection_revision ≡ suc current.selection_revision) (done-inj made value h₈)
            (resolve_body-revision hash deps.shapes_enabled deps.catalog q owned.policy
              current.recommendation),
        subst (λ v. v.intent ≡ change.intent) (done-inj made value h₈)
            (resolve_body-intent hash deps.shapes_enabled deps.catalog q owned.policy
              current.recommendation),
      )
