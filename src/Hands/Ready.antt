-- ===== src/Hands/Ready.antt =====
-- The catalogs that the service hands out.
use standin_app_server.Prelude.{
  ℕ, ◌≡◌, inl, inr, sym, subst, Bool, true, false, arith, Option, none, some, Tried, done, thrown,
  Tried-cases, Option-cases, Bool-cases, Json,
}
use standin_app_server.Hands.{HandError, record_of}
use standin_app_server.Hands.Catalog.{HandCatalog, parse_catalog}
use standin_app_server.Hands.Library.{IsLibrary, parse_catalog-IsLibrary}
use standin_app_server.Hands.Service.{
  Cached, Answer, failed, answered, fetched, fresh_catalog, keep_for, Times, hand_catalog,
  is_agreed, agree, verify_hand_catalog, Caches, ready_hand_catalog,
}

abbrev pub CachedIsLibrary : Option Cached → Type 0
CachedIsLibrary none = Unit
CachedIsLibrary (some c) = IsLibrary c.catalog

abbrev pub ResultIsLibrary : Tried HandError HandCatalog → Type 0
ResultIsLibrary (thrown e) = Unit
ResultIsLibrary (done c) = IsLibrary c

pub record CachesAreLibraries (c : Caches) : Type 0 where
  pub cached : CachedIsLibrary c.cached
  pub ready : CachedIsLibrary c.ready

parsed-IsLibrary : (body : Option Json) → ResultIsLibrary (parse_catalog body)
parsed-IsLibrary body = elim (Tried-cases (parse_catalog body)) [
  | inl (c, e) ↦ subst ResultIsLibrary (sym e) (parse_catalog-IsLibrary body c e)
  | inr (x, e) ↦ subst ResultIsLibrary (sym e) tt
]

fetched-IsLibrary : (answer : Answer) → ResultIsLibrary (fetched answer)
unfolding fetched
fetched-IsLibrary failed = tt
fetched-IsLibrary (answered true body) = parsed-IsLibrary body
fetched-IsLibrary (answered false body) = tt

fresh-IsLibrary :
    (now : ℕ) (cache : Option Cached) (c : HandCatalog)
    → CachedIsLibrary cache
    → fresh_catalog now cache ≡ some c
    → IsLibrary c
unfolding fresh_catalog
fresh-IsLibrary now none c h e = cc
fresh-IsLibrary now (some k) c h e =
    let kept : k.catalog ≡ c = ground (arith, e) in subst IsLibrary kept h

keep_for-IsLibrary :
    (until : ℕ) (r : Tried HandError HandCatalog) (cache : Option Cached)
    → ResultIsLibrary r
    → CachedIsLibrary cache
    → CachedIsLibrary (keep_for until r cache)
unfolding keep_for
keep_for-IsLibrary until (done c) cache h k = h
keep_for-IsLibrary until (thrown e) cache h k = k

hand_catalog-IsLibrary :
    (times : Times) (answer : Answer) (cache : Option Cached)
    → CachedIsLibrary cache
    → CachedIsLibrary (hand_catalog times answer cache).0
      × ResultIsLibrary (hand_catalog times answer cache).1
unfolding hand_catalog
hand_catalog-IsLibrary times answer cache h =
    elim (Option-cases (fresh_catalog times.asked cache)) [
      | inr (c, fresh) ↦ rw (hand_catalog, fresh) (h, fresh-IsLibrary times.asked cache c h fresh)
      | inl stale ↦
          rw (hand_catalog, stale)
            (
              keep_for-IsLibrary _ (fetched answer) cache (fetched-IsLibrary answer) h,
              fetched-IsLibrary answer,
            )
    ]

agree-IsLibrary :
    (c : HandCatalog) (health : Answer) → IsLibrary c → ResultIsLibrary (agree c health)
unfolding agree
agree-IsLibrary c failed h = tt
agree-IsLibrary c (answered ok body) h = elim (Bool-cases (is_agreed c ok (record_of body))) [
  | inl e ↦ rw (ResultIsLibrary, e) h
  | inr e ↦ rw (ResultIsLibrary, e) tt
]

verify-IsLibrary :
    (r : Tried HandError HandCatalog) (health : Answer)
    → ResultIsLibrary r
    → ResultIsLibrary (verify_hand_catalog r health)
unfolding verify_hand_catalog
verify-IsLibrary (done c) health h = agree-IsLibrary c health h
verify-IsLibrary (thrown e) health h = tt

-- Every catalog that the service hands out is a library to choose from, whatever the servers answer and
-- whether it comes from a cache or not, and the caches keep only such catalogs.
pub ready_hand_catalog-IsLibrary :
    (enabled fresh : Bool) (times : Times) (answer health : Answer) (c : Caches)
    → CachesAreLibraries c
    → CachesAreLibraries (ready_hand_catalog enabled fresh times answer health c).0
      × ResultIsLibrary (ready_hand_catalog enabled fresh times answer health c).1
unfolding ready_hand_catalog
ready_hand_catalog-IsLibrary false fresh times answer health c h = (h, tt)
ready_hand_catalog-IsLibrary true true times answer health c h =
    let (k, r) = hand_catalog-IsLibrary times answer c.cached h.cached in
    (record { cached = k; ready = h.ready }, verify-IsLibrary _ health r)
ready_hand_catalog-IsLibrary true false times answer health c h =
    elim (Option-cases (fresh_catalog times.asked c.ready)) [
      | inr (kept, found) ↦
          rw (ready_hand_catalog, found) (h, fresh-IsLibrary times.asked c.ready kept h.ready found)
      | inl stale ↦
          let (k, r) = hand_catalog-IsLibrary times answer c.cached h.cached in
          let verified = verify-IsLibrary (hand_catalog times answer c.cached).1 health r in
          rw (ready_hand_catalog, stale)
            (
              record { cached = k; ready = keep_for-IsLibrary _ _ c.ready verified h.ready },
              verified,
            )
    ]
