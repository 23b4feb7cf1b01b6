-- ===== src/Bodies/Preferences/Cards.antt =====
-- How many cards there are, and their names.
use standin_app_server.Prelude.{
  suc, ◌<◌, ◌≤◌, ◌≡◌, inl, inr, refl, ap, subst, List, [], ◌∷◌, ◌++◌, arith, leb, String, Option,
  none, some, Text, length, length-append, same, lookup-insert, Tried, done, throw_if, >>=-eq-done,
  done-inj, Bool-cases, All,
}
use standin_app_server.Bodies.{BodyCard, BodyMode, BodyPreferences}
use standin_app_server.Bodies.Model.{stored}
use standin_app_server.Bodies.Tables.{
  BodyError, body_error, Mutation, Payload, CardChange, create_card, update_card, delete_card,
  BodyDb,
}
use standin_app_server.Bodies.Preferences.{
  Deps, read_preferences, store_preferences, save_preferences, write_with, write_preferences,
  write_cards, with_cards, change_cards, card_name, find_card, found_card, remove_card,
  replace_card, reshaped, renamed, card_body,
}
use standin_app_server.Bodies.Preferences.Repeats.{
  WasRepeated, write_with-cases, normalize_preferences-stored,
}

abbrev pub IsNamed : BodyCard → Type 0
IsNamed c = (0 < length c.name) × (length c.name ≤ 24)

abbrev pub IsSound : List BodyCard → Type 0
IsSound cards = (length cards ≤ 48) × All IsNamed cards

-- The cards of every installation.
abbrev pub HasSoundCards : BodyDb → Type 0
HasSoundCards db = (owner : String) → IsSound (read_preferences db owner).cards

card_name-IsNamed :
    (raw name : Text) → card_name raw ≡ done name → (0 < length name) × (length name ≤ 24)
unfolding card_name
card_name-IsNamed raw name h = ground (arith, h)

append-IsNamed :
    (cards : List BodyCard) (c : BodyCard)
    → All IsNamed cards
    → IsNamed c
    → All IsNamed (cards ++ c ∷ [])
append-IsNamed [] c h k = (k, tt)
append-IsNamed (d ∷ cards) c (h, hs) k = (h, append-IsNamed cards c hs k)

remove_card-IsSound :
    (id : String) (cards : List BodyCard)
    → All IsNamed cards
    → (length (remove_card id cards) ≤ length cards) × All IsNamed (remove_card id cards)
unfolding remove_card
remove_card-IsSound id [] h = (omega arith, tt)
remove_card-IsSound id (c ∷ cs) (h, hs) = elim (Bool-cases (same c.card_id id)) [
  | inl e ↦ rw e (omega arith, hs)
  | inr e ↦
      let (shorter, named) = remove_card-IsSound id cs hs in
      rw e (omega (arith, shorter), (h, named))
]

replace_card-IsSound :
    (id : String) (card : BodyCard) (cards : List BodyCard)
    → IsNamed card
    → All IsNamed cards
    → (length (replace_card id card cards) ≡ length cards)
      × All IsNamed (replace_card id card cards)
unfolding replace_card
replace_card-IsSound id card [] k h = (refl, tt)
replace_card-IsSound id card (c ∷ cs) k (h, hs) = elim (Bool-cases (same c.card_id id)) [
  | inl e ↦ rw e (refl, (k, hs))
  | inr e ↦
      let (equal, named) = replace_card-IsSound id card cs k hs in rw e (ap suc equal, (h, named))
]

find_card-IsNamed :
    (id : String) (cards : List BodyCard) (c : BodyCard)
    → All IsNamed cards
    → found_card id cards ≡ done c
    → IsNamed c
unfolding found_card find_card
find_card-IsNamed id [] c h e = cc
find_card-IsNamed id (d ∷ ds) c (h, hs) e = elim (Bool-cases (same d.card_id id)) [
  | inl t ↦ let k : d ≡ c = ground (arith, e, t) in subst IsNamed k h
  | inr f ↦ find_card-IsNamed id ds c hs (ground (arith, e, f))
]

renamed-IsNamed :
    (card : BodyCard) (name : Option Text) (t : Text)
    → IsNamed card
    → renamed card name ≡ done t
    → (0 < length t) × (length t ≤ 24)
unfolding renamed
renamed-IsNamed card none t k h = subst (λ x. (0 < length x) × (length x ≤ 24)) (done-inj _ _ h) k
renamed-IsNamed card (some raw) t k h = card_name-IsNamed raw t h

change_cards-IsSound :
    (deps : Deps) (change : CardChange) (cards new : List BodyCard)
    → IsSound cards
    → change_cards deps change cards ≡ done new
    → IsSound new
unfolding change_cards
change_cards-IsSound deps (create_card name id controls) cards new (few, named) h =
    let (u, one, h₁) =
      >>=-eq-done (throw_if (leb 48 (length cards)) (body_error "CARD_LIMIT" 409)) _ _ h in
    let (body, two, h₂) = >>=-eq-done (card_body deps id controls) _ _ h₁ in
    let (text, three, h₃) = >>=-eq-done (card_name name) _ _ h₂ in
    subst IsSound (done-inj _ _ h₃) (
      rw (length-append cards) (ground (arith, one)),
      append-IsNamed cards _ named (card_name-IsNamed name text three),
    )
change_cards-IsSound deps (update_card id name character controls) cards new (few, named) h =
    let (card, one, h₁) = >>=-eq-done (found_card id cards) _ _ h in
    let (body, two, h₂) = >>=-eq-done (reshaped deps card character controls) _ _ h₁ in
    let (text, three, h₃) = >>=-eq-done (renamed card name) _ _ h₂ in
    let (equal, all) =
      replace_card-IsSound id
        (record card {
          name = text;
          character_id = body.0;
          controls = body.1;
          updated_at = deps.now;
        })
        cards (renamed-IsNamed card name text (find_card-IsNamed id cards card named one) three)
        named in
    subst IsSound (done-inj _ _ h₃) (omega (arith, equal, few), all)
change_cards-IsSound deps (delete_card id) cards new (few, named) h =
    let (card, one, h₁) = >>=-eq-done (found_card id cards) _ _ h in
    let (shorter, all) = remove_card-IsSound id cards named in
    subst IsSound (done-inj _ _ h₁) (omega (arith, shorter, few), all)

pub store-HasSoundCards :
    (owner : String) (value : BodyPreferences) (db : BodyDb)
    → IsSound value.cards
    → HasSoundCards db
    → HasSoundCards (store_preferences owner value db)
unfolding read_preferences store_preferences
store-HasSoundCards owner value db sound all other = elim (Bool-cases (same owner other)) [
  | inl e ↦
      rw
        (
          lookup-insert owner other (stored value) db.body_preferences,
          e,
          normalize_preferences-stored value,
        )
        sound
  | inr e ↦ rw (lookup-insert owner other (stored value) db.body_preferences, e) (all other)
]

pub write_with-HasSoundCards :
    (deps : Deps) (owner : String) (request : Mutation) (payload : Payload)
    (change : BodyPreferences → Tried BodyError BodyPreferences) (db after : BodyDb)
    (value : BodyPreferences)
    → ((current changed : BodyPreferences)
        → IsSound current.cards
        → change current ≡ done changed
        → IsSound changed.cards)
    → HasSoundCards db
    → write_with deps owner request payload change db ≡ done (after, value)
    → HasSoundCards after
unfolding WasRepeated save_preferences store_preferences read_preferences
write_with-HasSoundCards deps owner request payload change db after value keeps all h =
    elim (write_with-cases deps owner request payload change db after value h).1 [
      | inl (old, found, answer, kept) ↦ subst HasSoundCards kept all
      | inr fresh ↦ subst HasSoundCards fresh.after_lem (
          store-HasSoundCards owner value db
            (subst (λ p. IsSound p.cards) fresh.value_lem
              (keeps (read_preferences db owner) fresh.changed (all owner) fresh.change_lem))
            all)
    ]

pub write_preferences-HasSoundCards :
    (deps : Deps) (owner : String) (request : Mutation) (mode : BodyMode) (db after : BodyDb)
    (value : BodyPreferences)
    → HasSoundCards db
    → write_preferences deps owner request mode db ≡ done (after, value)
    → HasSoundCards after
unfolding write_preferences
write_preferences-HasSoundCards deps owner request mode db after value =
    write_with-HasSoundCards deps owner request _ _ db after value
      (λ current changed sound e. subst (λ p. IsSound p.cards) (done-inj _ _ e) sound)

pub write_cards-HasSoundCards :
    (deps : Deps) (owner : String) (request : Mutation) (change : CardChange) (db after : BodyDb)
    (value : BodyPreferences)
    → HasSoundCards db
    → write_cards deps owner request change db ≡ done (after, value)
    → HasSoundCards after
unfolding write_cards with_cards
write_cards-HasSoundCards deps owner request change db after value =
    write_with-HasSoundCards deps owner request _ _ db after value (λ current changed sound e.
      let (cards, one, e₁) = >>=-eq-done (change_cards deps change current.cards) _ _ e in
      subst (λ p. IsSound p.cards) (done-inj _ _ e₁)
        (change_cards-IsSound deps change current.cards cards sound one))
