-- ===== src/Bodies/Tests.antt =====
-- A catalog of two bodies, an installation with a card, and a job of one person.
use standin_app_server.Prelude.{
  ◌≡◌, ◌≤◌, refl, true, false, not, ◌&&◌, [], ◌∷◌, arith, String-discrete, some, length, done,
  thrown, lookup, insert, leb_ℤ, above, plus_ℕ, distance,
}
use standin_app_server.Bodies.{
  BodyPreferences, auto_mode, auto, auto_recommendation, ready, BodySelection,
}
use standin_app_server.Bodies.Shape.{
  mem, nearest, off_grid, to_fixed, snap, accept, normalize_all, normalize_controls, all_known,
  find_character, given, invalid_shape, shape_spec, card_shape,
}
use standin_app_server.Bodies.Children.{
  is_child_body, child_id, child_name, find_asset, once, automatic_recommendation, white,
}
use standin_app_server.Bodies.Model.{
  normalize_preferences, stored, same_body, supports, has_asset, eligible, preview_eligible,
  body_eligible, is_male_base, first_male, first_use_body, has_card, migrated_cards, last_used_body,
}
use standin_app_server.Bodies.Choice.{
  initial_selection, is_available, use_body, use_male_base, use_recommended, remembered_shape,
  use_last, use_mode, use_intent, use_poses, resolve_body,
}
use standin_app_server.Bodies.Tables.{
  Transaction, shape_error, SelectionRow, expect, is_resource, find_mutation, replayed, replay,
  newer, count_newer, evict, remember,
}
use standin_app_server.Bodies.Preferences.{
  read_preferences, store_preferences, trim_start, trim_end, card_name, card_body, change_cards,
  save_preferences, write_once, write_with, write_preferences, with_cards, write_cards,
}
use standin_app_server.Bodies.Preferences.Repeats.{write_cards-again}
use standin_app_server.Bodies.Selections.{
  is_unsettled, settled, checked, revalidate, chosen_shape, decide,
}
use standin_app_server.Bodies.Persons.{
  person_body_context, context_of, pose_ids, find_job, find_selection, update_selection,
  find_body_person, OwnedPerson, completed_job, owned_person,
}
use standin_app_server.Bodies.Selections.Checked.{revalidate-recommends_no_child}
use standin_app_server.Bodies.Selections.Options.{pick, option_of-decide}
use standin_app_server.Bodies.Selections.Decided.{IsOffered}
use standin_app_server.Bodies.Selections.Writes.{
  remember_body, last_used_of, record_last_used, save_selection, choose_once, write_selection,
}
use standin_app_server.Bodies.Selections.Shown.{reasons, option_of}
use standin_app_server.Bodies.Selections.Writes.Repeats.{
  write_selection-again, write_selection-stale, write_selection-IsOffered,
}
use standin_app_server.Bodies.Reached.{saves_preferences, here, next, Reaches-HasSoundCards}
use standin_app_server.Bodies.Samples.{
  hash, height, spec, adult, child, catalog, deps, strict, policy, person, chosen, first_choice,
  start, db_of, value_of, mutation, no_preferences, new_card, carded, auto_saved, owned, by_hand,
  picked,
}

-- A control that is named like a property of every object has no default.
inherited_key_test :
    normalize_controls
      (record spec { controls = record height { key = "constructor" } ∷ [] })
      (some [])
    ≡ thrown invalid_shape
unfolding normalize_controls normalize_all accept given all_known mem lookup String-discrete
inherited_key_test = refl

-- The pattern finds the id of the child's body, and not that of the adult's.
is_child_body_test :
    (is_child_body (some child.ref) catalog && not (is_child_body (some adult.ref) catalog)) ≡ true
unfolding is_child_body child_id find_asset String-discrete
is_child_body_test = refl

-- The mode was changed since, by another request.
abbrev mode_changed : Transaction BodyPreferences
mode_changed =
    write_preferences deps "home" (record { expected_revision = 1; mutation_id = "m2" }) auto_mode
      (db_of start carded)

write_cards-again_example :
    write_cards deps "home" (mutation "m1") new_card (db_of start mode_changed)
    ≡ done (db_of start mode_changed, value_of no_preferences carded)
unfolding write_cards write_preferences write_with write_once with_cards change_cards card_body
    card_shape shape_spec shape_error normalize_controls normalize_all accept given snap nearest
    off_grid to_fixed all_known leb_ℤ distance above plus_ℕ card_name trim_start trim_end white
    save_preferences store_preferences read_preferences expect stored lookup insert
    normalize_preferences migrated_cards find_character mem String-discrete replay replayed
    find_mutation is_resource remember evict count_newer newer
write_cards-again_example =
    write_cards-again deps deps "home" (mutation "m1") new_card start (db_of start carded)
      (db_of start mode_changed) (value_of no_preferences carded) strict tt refl refl refl refl

Reaches-HasSoundCards_example : length (read_preferences (db_of start auto_saved) "home").cards ≤ 48
unfolding write_preferences write_with mem String-discrete replay replayed find_mutation write_once
    expect read_preferences normalize_preferences lookup migrated_cards
Reaches-HasSoundCards_example =
    (Reaches-HasSoundCards hash start (db_of start auto_saved)
      (next start (db_of start auto_saved) (db_of start auto_saved)
        (saves_preferences deps "home" (mutation "m1") auto_mode start (db_of start auto_saved)
          (value_of no_preferences auto_saved) refl)
        (here (db_of start auto_saved)))
      (λ owner. (omega arith, tt)) "home").0

revalidate-recommends_no_child_example :
    is_child_body
      (revalidate hash deps
        (chosen auto_recommendation auto adult.ref)
        person
        false
        (some policy)).resolved_body
      catalog
    ≡ false
unfolding revalidate checked settled is_unsettled is_child_body child_id find_asset String-discrete
revalidate-recommends_no_child_example =
    revalidate-recommends_no_child hash deps (chosen auto_recommendation auto adult.ref) person
      false policy refl refl

option_of-decide_example :
    (value : BodySelection) × (decide hash deps (pick hash deps child "m1" 0) 0 owned first_choice
      ≡ done value)
    × (value.resolved_body ≡ some child.ref)
    × (value.resolution_status ≡ ready)
unfolding option_of find_character String-discrete reasons person_body_context context_of pose_ids
    body_eligible eligible has_asset same_body supports mem
option_of-decide_example = option_of-decide hash deps 0 owned first_choice child "m1" refl refl

write_selection-again_example :
    (o : OwnedPerson) × (owned_person (db_of start picked) "home" "job" 0 ≡ done o)
    × (write_selection hash deps (db_of start picked) "home" "job" 0 (by_hand "m1")
        ≡ done (
          db_of start picked,
          revalidate hash deps (value_of first_choice picked) o.person o.semantic (some o.policy),
        ))
unfolding write_selection choose_once owned_person completed_job find_job find_selection
    find_body_person decide expect chosen_shape person_body_context context_of pose_ids
    save_selection record_last_used last_used_of remember_body update_selection store_preferences
    read_preferences stored lookup insert replay replayed find_mutation is_resource remember evict
    count_newer newer resolve_body initial_selection use_poses use_intent use_mode use_last
    use_recommended use_male_base use_body remembered_shape is_available automatic_recommendation
    is_child_body child_id child_name find_asset once body_eligible eligible preview_eligible
    has_asset supports same_body first_use_body first_male is_male_base normalize_preferences
    migrated_cards has_card last_used_body find_character mem String-discrete
write_selection-again_example =
    write_selection-again hash deps "home" "job" 0 (by_hand "m1") start (db_of start picked)
      (value_of first_choice picked) deps strict tt refl refl refl

write_selection-stale_example :
    write_selection hash deps (db_of start picked) "home" "job" 0 (by_hand "m2")
    ≡ thrown (record { code = "BODY_SELECTION_CONFLICT"; status = 409; current_revision = some 1 })
unfolding write_selection choose_once owned_person completed_job find_job find_selection
    find_body_person decide expect chosen_shape person_body_context context_of pose_ids
    save_selection record_last_used last_used_of remember_body update_selection store_preferences
    read_preferences stored lookup insert replay replayed find_mutation is_resource remember evict
    count_newer newer resolve_body initial_selection use_poses use_intent use_mode use_last
    use_recommended use_male_base use_body remembered_shape is_available automatic_recommendation
    is_child_body child_id child_name find_asset once body_eligible eligible preview_eligible
    has_asset supports same_body first_use_body first_male is_male_base normalize_preferences
    migrated_cards has_card last_used_body find_character mem String-discrete
write_selection-stale_example =
    write_selection-stale hash deps "home" "job" 0 (by_hand "m1") start (db_of start picked)
      (value_of first_choice picked) deps (by_hand "m2") strict refl refl refl refl refl

write_selection-IsOffered_example :
    (o : OwnedPerson) × (row : SelectionRow) × (owned_person start "home" "job" 0 ≡ done o)
    × IsOffered deps (person_body_context o.person o.semantic) (value_of first_choice picked)
    × (find_selection "job" 0 (db_of start picked).body_selections ≡ some row)
    × (row.value ≡ value_of first_choice picked)
unfolding write_selection choose_once owned_person completed_job find_job find_selection
    find_body_person decide expect chosen_shape person_body_context context_of pose_ids
    save_selection record_last_used last_used_of remember_body update_selection store_preferences
    read_preferences stored lookup insert replay replayed find_mutation is_resource remember evict
    count_newer newer resolve_body initial_selection use_poses use_intent use_mode use_last
    use_recommended use_male_base use_body remembered_shape is_available automatic_recommendation
    is_child_body child_id child_name find_asset once body_eligible eligible preview_eligible
    has_asset supports same_body first_use_body first_male is_male_base normalize_preferences
    migrated_cards has_card last_used_body find_character mem String-discrete
write_selection-IsOffered_example =
    write_selection-IsOffered hash deps "home" "job" 0 (by_hand "m1") start (db_of start picked)
      (value_of first_choice picked) refl refl
