-- ===== src/Hands/Service.antt =====
-- hands/service.ts: the catalog with its cache, and the agreement of inference and converter on the
-- library, one call at a time; what concurrent calls share stands in Flights. The answers of the two
-- servers and the clock are arguments.
use standin_app_server.Prelude.{
  ℕ, ◌+◌, Bool, false, not, ◌&&◌, ◌||◌, List, [], ◌∷◌, if◌then◌else◌, ltb, String, Option, none,
  some, same, Json, Fields, field_of, text_of, boolean_of, array_of, Tried, done, thrown, ◌>>=◌,
}
use standin_app_server.Hands.{HandError, hands_unavailable, hand_selection_disabled, record_of}
use standin_app_server.Hands.Catalog.{HandCatalog, parse_catalog}

-- `cached` and `readyCache`.
pub record Cached : Type 0 where
  pub until : ℕ
  pub catalog : HandCatalog

-- What a request gave: nothing, or whether it was ok and the JSON of its body.
pub data Answer : Type 0 where
  failed : Answer
  answered : Bool → Option Json → Answer

unfoldable pub fetched : Answer → Tried HandError HandCatalog
fetched failed = thrown hands_unavailable
fetched (answered ok body) = if ok then parse_catalog body else thrown hands_unavailable

-- `cached && cached.until > Date.now()`
unfoldable pub fresh_catalog : ℕ → Option Cached → Option HandCatalog
fresh_catalog now none = none
fresh_catalog now (some c) = if ltb now c.until then some c.catalog else none

unfoldable pub keep_for : ℕ → Tried HandError HandCatalog → Option Cached → Option Cached
keep_for until (thrown e) cache = cache
keep_for until (done catalog) cache = some (record { until = until; catalog = catalog })

-- When a call begins, has its catalog, and has verified it.
pub record Times : Type 0 where
  pub asked : ℕ
  pub received : ℕ
  pub verified : ℕ

unfoldable pub hand_catalog :
    Times → Answer → Option Cached → Option Cached × Tried HandError HandCatalog
hand_catalog times answer cache = elim (fresh_catalog times.asked cache) [
  | some catalog ↦ (cache, done catalog)
  | none ↦ (keep_for (times.received + 30000) (fetched answer) cache, fetched answer)
]

abbrev pub expected_solver_version : String
expected_solver_version = "chain-transport-v3.2.5"

abbrev pub framing_version : String
framing_version = "skin-regions-v2-shoulder-head"

is_text : String → Option String → Bool
is_text t none = false
is_text t (some u) = same u t

is_true : Option Bool → Bool
is_true none = false
is_true (some b) = b

has_text : String → List Json → Bool
has_text t [] = false
has_text t (v ∷ vs) = is_text t (text_of (some v)) || has_text t vs

has_scopes : Option (List Json) → Bool
has_scopes none = false
has_scopes (some vs) =
    has_text "full" vs && (has_text "half" vs && (has_text "bust" vs && has_text "head" vs))

-- The converter is healthy and has the library of the catalog.
unfoldable pub is_agreed : HandCatalog → Bool → Fields → Bool
unfolding is_text is_true has_scopes has_text
is_agreed catalog ok value =
    let library = record_of (field_of "hand_library" value) in
    ok
    && (is_true (boolean_of (field_of "ok" value))
        && (is_text expected_solver_version (text_of (field_of "solver_version" value))
            && (is_text framing_version (text_of (field_of "framing_version" value))
                && (has_scopes (array_of (field_of "output_scopes" value))
                    && (is_text catalog.library_version (text_of (field_of "version" library))
                        && is_text catalog.library_sha256 (text_of (field_of "sha256" library)))))))

unfoldable pub agree : HandCatalog → Answer → Tried HandError HandCatalog
agree catalog failed = thrown hands_unavailable
agree catalog (answered ok body) =
    if is_agreed catalog ok (record_of body) then done catalog else thrown hands_unavailable

unfoldable pub verify_hand_catalog :
    Tried HandError HandCatalog → Answer → Tried HandError HandCatalog
verify_hand_catalog catalog health = catalog >>= λ c. agree c health

-- The two caches.
pub record Caches : Type 0 where
  pub cached : Option Cached
  pub ready : Option Cached

-- `readyHandCatalog(fresh)`, as the code calls it: without overrides.
unfoldable pub ready_hand_catalog :
    Bool → Bool → Times → Answer → Answer → Caches → Caches × Tried HandError HandCatalog
ready_hand_catalog enabled fresh times answer health c =
    if not enabled
    then (c, thrown hand_selection_disabled)
    else elim (if fresh then none else fresh_catalog times.asked c.ready) [
      | some catalog ↦ (c, done catalog)
      | none ↦
          let (cached, catalog) = hand_catalog times answer c.cached in
          let verified = verify_hand_catalog catalog health in
          (
            record {
              cached = cached;
              ready = if fresh then c.ready else keep_for (times.verified + 5000) verified c.ready;
            },
            verified,
          )
    ]
