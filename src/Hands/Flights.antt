-- ===== src/Hands/Flights.antt =====
-- hands/service.ts: the check that concurrent callers of readyHandCatalog share, and
-- handSelectionAvailable. A caller that is not answered at once waits for the check that runs.
pub mod Shared
use standin_app_server.Prelude.{
  ℕ, suc, ◌+◌, Bool, true, false, not, List, [], ◌∷◌, ◌++◌, if◌then◌else◌, Option, none, some,
  Tried, done, thrown, replicate,
}
use standin_app_server.Hands.{HandError}
use standin_app_server.Hands.Catalog.{HandCatalog}
use standin_app_server.Hands.Service.{
  Cached, fresh_catalog, keep_for, Times, Answer, Caches, ready_hand_catalog,
}

-- `readyCache`, and `pending` with the number of the callers that wait for it.
pub record Flight : Type 0 where
  pub ready : Option Cached
  pub pending : Option ℕ

-- A call without `fresh` at a time, and the end of the check.
pub data Event : Type 0 where
  asked : ℕ → Event
  checked : ℕ → Tried HandError HandCatalog → Event

-- `if (pending) return pending;`, or a check is started.
unfoldable pub join_check : Option ℕ → Option ℕ
join_check none = some 1
join_check (some waiting) = some (suc waiting)

unfoldable pub ask : ℕ → Flight → Flight × List (Tried HandError HandCatalog)
ask now f = elim (fresh_catalog now f.ready) [
  | some catalog ↦ (f, done catalog ∷ [])
  | none ↦ (record f { pending = join_check f.pending }, [])
]

-- The continuation of the check: a catalog is kept for five seconds, and `pending` is undefined, also
-- when it failed.
unfoldable pub end_check :
    ℕ → Tried HandError HandCatalog → Flight → Flight × List (Tried HandError HandCatalog)
end_check now result f = elim f.pending [
  | none ↦ (f, [])
  | some waiting ↦ (
    record { ready = keep_for (now + 5000) result f.ready; pending = none },
    replicate waiting result,
  )
]

abbrev is_answered : Tried HandError HandCatalog → Bool
is_answered (done catalog) = true
is_answered (thrown e) = false

unfoldable pub hand_selection_available : Bool → Times → Answer → Answer → Caches → Caches × Bool
hand_selection_available enabled times answer health c =
    if not enabled
    then (c, false)
    else let (c', result) = ready_hand_catalog enabled false times answer health c in
      (c', is_answered result)
