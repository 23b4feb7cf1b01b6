-- ===== src/Bodies/Preferences/Repeats.antt =====
-- Requests on the preferences that are repeated, or that were made of a state that is gone.
use standin_app_server.Prelude.{
  suc, ◌≡◌, ◌≢◌, ◌⊎◌, inl, inr, refl, sym, ap, subst, ◌∙◌, true, false, not, if◌then◌else◌, arith,
  String, Option, none, some, same, same_self, lookup-insert, Tried, done, thrown, throw_if,
  >>=-eq-done, done-inj, All, String-discrete,
}
use standin_app_server.Bodies.{
  BodyMode, auto_mode, last_used_mode, BodyPreferences, StoredPreferences,
}
use standin_app_server.Bodies.Shape.{mem}
use standin_app_server.Bodies.Model.{normalize_preferences, stored, mode_text, migrated_cards}
use standin_app_server.Bodies.Tables.{
  BodyError, body_error, Mutation, Payload, BodyDb, preferences_resource, expect, find_mutation,
  replayed, replay, CardChange,
}
use standin_app_server.Bodies.Tables.Remembered.{
  IsStrict, IsPast, replay-remember, find_mutation-other,
}
use standin_app_server.Bodies.Preferences.{
  Deps, read_preferences, store_preferences, save_preferences, write_once, write_with,
  write_preferences, write_cards,
}

mode_text-mode :
    (m : BodyMode) → (if same (mode_text m) "auto" then auto_mode else last_used_mode) ≡ m
unfolding String-discrete
mode_text-mode auto_mode = refl
mode_text-mode last_used_mode = refl

-- Preferences that were written are read as they were.
pub normalize_preferences-stored : (p : BodyPreferences) → normalize_preferences (stored p) ≡ p
unfolding normalize_preferences stored migrated_cards
normalize_preferences-stored p = ap (λ m. record p { mode = m }) (mode_text-mode p.mode)

pub read_preferences-store :
    (owner : String) (value : BodyPreferences) (db : BodyDb)
    → read_preferences (store_preferences owner value db) owner ≡ value
unfolding read_preferences store_preferences
read_preferences-store owner value db =
    rw (lookup-insert owner owner (stored value) db.body_preferences, same_self owner)
      (normalize_preferences-stored value)

-- How a write ends: with the answer of a repetition, or with new preferences.
pub record IsFresh (deps : Deps) (owner : String) (request : Mutation) (payload : Payload)
    (change : BodyPreferences → Tried BodyError BodyPreferences) (db after : BodyDb)
    (value : BodyPreferences) : Type 0 where
  pub replay_lem :
      replay owner preferences_resource request (deps.payload_hash payload) db.preference_mutations
      ≡ done none
  pub revision_lem : (read_preferences db owner).revision ≡ request.expected_revision
  pub changed : BodyPreferences
  pub change_lem : change (read_preferences db owner) ≡ done changed
  pub value_lem : record changed { revision = suc (read_preferences db owner).revision } ≡ value
  pub after_lem : save_preferences deps owner request (deps.payload_hash payload) value db ≡ after

module _ (deps : Deps) (owner : String) (request : Mutation) (payload : Payload)
    (change : BodyPreferences → Tried BodyError BodyPreferences) (db after : BodyDb)
    (value : BodyPreferences) where
  abbrev hash : String
  hash = deps.payload_hash payload

  unfoldable pub WasRepeated : Type 0
  WasRepeated =
      (old : StoredPreferences) × (replay owner preferences_resource request hash
          db.preference_mutations
        ≡ done (some old))
      × (normalize_preferences old ≡ value)
      × (db ≡ after)

  write_once-cases :
      (previous : Option StoredPreferences)
      → replay owner preferences_resource request hash db.preference_mutations ≡ done previous
      → write_once deps owner request hash change db previous ≡ done (after, value)
      → WasRepeated ⊎ IsFresh deps owner request payload change db after value
  unfolding write_once expect WasRepeated
  write_once-cases (some old) e h =
      let pair = done-inj _ _ h in inl (old, e, ap (λ p. p.1) pair, ap (λ p. p.0) pair)
  write_once-cases none e h =
      let (a, one, h₁) =
        >>=-eq-done
          (expect (read_preferences db owner).revision request.expected_revision
            "BODY_PREFERENCE_CONFLICT")
          _ _ h in
      let (changed, two, h₂) = >>=-eq-done (change (read_preferences db owner)) _ _ h₁ in
      let pair = done-inj _ _ h₂ in
      let same_value = ap (λ p. p.1) pair in
      inr (record {
        replay_lem = e;
        revision_lem = ground (arith, one);
        changed = changed;
        change_lem = two;
        value_lem = same_value;
        after_lem =
            subst (λ v. save_preferences deps owner request hash v db ≡ after) same_value
              (ap (λ p. p.0) pair);
      })

  pub write_with-cases :
      write_with deps owner request payload change db ≡ done (after, value)
      → (mem owner db.installations ≡ true)
        × (WasRepeated ⊎ IsFresh deps owner request payload change db after value)
  unfolding write_with
  write_with-cases h =
      let (a, one, h₁) =
        >>=-eq-done (throw_if (not (mem owner db.installations)) (body_error "NOT_FOUND" 404)) _ _
          h in
      let (previous, two, h₂) =
        >>=-eq-done (replay owner preferences_resource request hash db.preference_mutations) _ _
          h₁ in
      (ground (arith, one), write_once-cases previous two h₂)

  -- The answer of a request is remembered when it is given.
  write_with-remembered :
      IsStrict deps.later_id
      → All (IsPast deps.now) db.preference_mutations
      → write_with deps owner request payload change db ≡ done (after, value)
      → (old : StoredPreferences) × (replay owner preferences_resource request hash
            after.preference_mutations
          ≡ done (some old))
        × (normalize_preferences old ≡ value)
  unfolding WasRepeated save_preferences store_preferences
  write_with-remembered strict past h =
      let (owned, how) = write_with-cases h in
      elim how [
        | inl (old, found, answer, kept) ↦ (
          old,
          ap (λ (d : BodyDb). replay owner preferences_resource request hash d.preference_mutations)
                (sym kept)
              ∙ found,
          answer,
        )
        | inr fresh ↦ (
          stored value,
          ap (λ (d : BodyDb). replay owner preferences_resource request hash d.preference_mutations)
                (sym fresh.after_lem)
              ∙ replay-remember deps.later_id strict
                  (record {
                    owner = owner;
                    resource = preferences_resource;
                    mutation_id = request.mutation_id;
                    job = none;
                    payload_hash = hash;
                    response = stored value;
                    created_at = deps.now;
                  })
                  db.preference_mutations request past refl,
          normalize_preferences-stored value,
        )
      ]

  pub write_with-again :
      (later : Deps) (other : BodyPreferences → Tried BodyError BodyPreferences) (db' : BodyDb)
      → IsStrict deps.later_id
      → All (IsPast deps.now) db.preference_mutations
      → later.payload_hash ≡ deps.payload_hash
      → write_with deps owner request payload change db ≡ done (after, value)
      → mem owner db'.installations ≡ true
      → find_mutation owner preferences_resource request.mutation_id db'.preference_mutations
        ≡ find_mutation owner preferences_resource request.mutation_id after.preference_mutations
      → write_with later owner request payload other db' ≡ done (db', value)
  unfolding write_with write_once replay
  write_with-again later other db' strict past e h owned remembers =
      let (old, found, answer) = write_with-remembered strict past h in
      rw (e, owned, remembers, found, answer) refl

  pub fresh-revision :
      IsFresh deps owner request payload change db after value
      → (read_preferences after owner).revision ≡ suc request.expected_revision
  unfolding save_preferences store_preferences read_preferences
  fresh-revision fresh =
      subst (λ d. (read_preferences d owner).revision ≡ suc request.expected_revision)
        fresh.after_lem
        (ap (λ p. p.revision) (read_preferences-store owner value db)
          ∙ sym (ap (λ p. p.revision) fresh.value_lem)
          ∙ ap suc fresh.revision_lem)

  fresh-remembers :
      (id : String)
      → same request.mutation_id id ≡ false
      → find_mutation owner preferences_resource id db.preference_mutations ≡ none
      → IsFresh deps owner request payload change db after value
      → IsStrict deps.later_id
      → find_mutation owner preferences_resource id after.preference_mutations ≡ none
  unfolding save_preferences store_preferences
  fresh-remembers id apart new fresh strict =
      subst (λ d. find_mutation owner preferences_resource id d.preference_mutations ≡ none)
        fresh.after_lem
        (find_mutation-other deps.later_id strict _ db.preference_mutations owner
          preferences_resource id apart new)

  fresh-installations :
      IsFresh deps owner request payload change db after value
      → after.installations ≡ db.installations
  unfolding save_preferences store_preferences
  fresh-installations fresh = sym (ap (λ d. d.installations) fresh.after_lem)

  pub not_repeated :
      find_mutation owner preferences_resource request.mutation_id db.preference_mutations ≡ none
      → (old : StoredPreferences)
      → replay owner preferences_resource request hash db.preference_mutations ≢ done (some old)
  unfolding replay replayed
  not_repeated new old h = ground (arith, h, new)

  -- What a new request meets after this one.
  pub write_with-stale :
      (later : Deps) (second : Mutation) (payload₂ : Payload)
      (other : BodyPreferences → Tried BodyError BodyPreferences)
      → IsStrict deps.later_id
      → find_mutation owner preferences_resource request.mutation_id db.preference_mutations ≡ none
      → find_mutation owner preferences_resource second.mutation_id db.preference_mutations ≡ none
      → same request.mutation_id second.mutation_id ≡ false
      → second.expected_revision ≡ request.expected_revision
      → write_with deps owner request payload change db ≡ done (after, value)
      → write_with later owner second payload₂ other after
        ≡ thrown (record {
          code = "BODY_PREFERENCE_CONFLICT";
          status = 409;
          current_revision = some (suc request.expected_revision);
        })
  unfolding WasRepeated write_with write_once expect replay replayed read_preferences
  write_with-stale later second payload₂ other strict new₁ new₂ apart stale h =
      let (owned, how) = write_with-cases h in
      elim how [
        | inl (old, found, answer, kept) ↦ absurd (not_repeated new₁ old found)
        | inr fresh ↦
            rw
              (
                fresh-installations fresh,
                owned,
                fresh-remembers second.mutation_id apart new₂ fresh strict,
                fresh-revision fresh,
                stale,
              )
              (ground arith)
      ]

-- A change of the cards that is sent again, with its mutation id, is given the same preferences and changes
-- nothing, in any later state that still has the row that remembers the answer, and the installation,
-- whatever other requests came between. When the answer was first given, the other remembered answers
-- were of earlier times.
pub write_cards-again :
    (deps later : Deps) (owner : String) (request : Mutation) (change : CardChange)
    (db after db' : BodyDb) (value : BodyPreferences)
    → IsStrict deps.later_id
    → All (IsPast deps.now) db.preference_mutations
    → later.payload_hash ≡ deps.payload_hash
    → write_cards deps owner request change db ≡ done (after, value)
    → mem owner db'.installations ≡ true
    → find_mutation owner preferences_resource request.mutation_id db'.preference_mutations
      ≡ find_mutation owner preferences_resource request.mutation_id after.preference_mutations
    → write_cards later owner request change db' ≡ done (db', value)
unfolding write_cards
write_cards-again deps later owner request change db after db' value strict past e h owned
      remembers =
    write_with-again deps owner request _ _ db after value later _ db' strict past e h owned
      remembers

-- Of two new requests with the same expected revision, one for the mode and one for the cards, the second
-- is refused with the revision that the first one made.
pub write_preferences-stale :
    (deps later : Deps) (owner : String) (first second : Mutation) (mode : BodyMode)
    (change : CardChange) (db after : BodyDb) (value : BodyPreferences)
    → IsStrict deps.later_id
    → find_mutation owner preferences_resource first.mutation_id db.preference_mutations ≡ none
    → find_mutation owner preferences_resource second.mutation_id db.preference_mutations ≡ none
    → same first.mutation_id second.mutation_id ≡ false
    → second.expected_revision ≡ first.expected_revision
    → write_preferences deps owner first mode db ≡ done (after, value)
    → write_cards later owner second change after
      ≡ thrown (record {
        code = "BODY_PREFERENCE_CONFLICT";
        status = 409;
        current_revision = some (suc first.expected_revision);
      })
unfolding write_preferences write_cards
write_preferences-stale deps later owner first second mode change db after value strict new₁ new₂
      apart stale h =
    write_with-stale deps owner first _ _ db after value later second _ _ strict new₁ new₂ apart
      stale h
