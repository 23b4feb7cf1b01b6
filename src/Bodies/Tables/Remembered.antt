-- ===== src/Bodies/Tables/Remembered.antt =====
-- A repetition of a request finds the answer of the first.
use standin_app_server.Prelude.{
  ℕ, ◌<◌, ◌≡◌, refl, sym, Bool, true, false, List, [], ◌∷◌, arith, String, none, some, same,
  same_self, done, All,
}
use standin_app_server.Bodies.Tables.{
  BodyMutation, Mutation, is_resource, find_mutation, replayed, replay, newer, count_newer, evict,
  remember,
}

-- The order of the ids of a table.
pub record IsStrict (later_id : String → String → Bool) : Type 0 where
  pub irreflexive : (id : String) → later_id id id ≡ false

abbrev pub IsPast : {A : Type 0} → ℕ → BodyMutation A → Type 0
IsPast now m = m.created_at < now

module _ {A : Type 0} (later_id : String → String → Bool) (strict : IsStrict later_id) where
  newer-past : (m n : BodyMutation A) → IsPast m.created_at n → newer later_id n m ≡ false
  unfolding newer
  newer-past m n h = ground (arith, h)

  count_newer-past :
      (owner : String) (resource : String × ℕ) (m : BodyMutation A) (ms : List (BodyMutation A))
      → All (IsPast m.created_at) ms
      → count_newer later_id owner resource m ms ≡ 0
  unfolding count_newer
  count_newer-past owner resource m [] h = refl
  count_newer-past owner resource m (n ∷ ns) (h, hs) =
      ground (arith, newer-past m n h, count_newer-past owner resource m ns hs)

  newer_self : (m : BodyMutation A) → newer later_id m m ≡ false
  unfolding newer
  newer_self m = ground (arith, strict.irreflexive m.mutation_id)

  is_resource_self : (m : BodyMutation A) → is_resource m.owner m.resource m ≡ true
  unfolding is_resource
  is_resource_self m = ground (arith, same_self m.owner, same_self m.resource.0)

  -- The newest row is found among those that are kept.
  pub find_mutation-remember :
      (m : BodyMutation A) (ms : List (BodyMutation A))
      → All (IsPast m.created_at) ms
      → find_mutation m.owner m.resource m.mutation_id (remember later_id m ms) ≡ some m
  unfolding remember evict find_mutation count_newer
  find_mutation-remember m ms h = ground (
    arith,
    is_resource_self m,
    newer_self m,
    same_self m.mutation_id,
    count_newer-past m.owner m.resource m ms h,
  )

  pub replay-remember :
      (m : BodyMutation A) (ms : List (BodyMutation A)) (request : Mutation)
      → All (IsPast m.created_at) ms
      → m.mutation_id ≡ request.mutation_id
      → replay m.owner m.resource request m.payload_hash (remember later_id m ms)
        ≡ done (some m.response)
  unfolding replay replayed
  replay-remember m ms request h e =
      rw (sym e, find_mutation-remember m ms h) (ground (arith, same_self m.payload_hash))

  find_mutation-evict :
      (owner o : String) (resource r : String × ℕ) (id : String) (all ms : List (BodyMutation A))
      → find_mutation owner resource id ms ≡ none
      → find_mutation owner resource id (evict later_id o r all ms) ≡ none
  unfolding evict find_mutation
  find_mutation-evict owner o resource r id all [] h = refl
  find_mutation-evict owner o resource r id all (m ∷ ms) h =
      ground (arith, h, find_mutation-evict owner o resource r id all ms)

  -- A request that was not made before is not made by another one.
  pub find_mutation-other :
      (m : BodyMutation A) (ms : List (BodyMutation A)) (owner : String) (resource : String × ℕ)
      (id : String)
      → same m.mutation_id id ≡ false
      → find_mutation owner resource id ms ≡ none
      → find_mutation owner resource id (remember later_id m ms) ≡ none
  unfolding remember find_mutation
  find_mutation-other m ms owner resource id e h =
      find_mutation-evict owner m.owner resource m.resource id (m ∷ ms) (m ∷ ms)
        (ground (arith, e, h))
