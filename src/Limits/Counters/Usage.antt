-- ===== src/Limits/Counters/Usage.antt =====
-- What the counters count: each statement's effect on the usage of every key.
use standin_app_server.Prelude.{
  ℕ, zero, suc, ◌+◌, ◌-◌, ◌/◌, ◌<◌, ◌≡◌, ◌≢◌, ◌↔◌, refl, Bool, true, false, List, [], ◌∷◌, arith,
  ite, dec_lt, min, if◌then◌else◌, String, Option, none, some,
}
use standin_app_server.Limits.Policy.{UsageWindow}
use standin_app_server.Limits.Counters.{
  UsageScope, CounterKey, CounterKey-discrete, Counter, retention_grace_seconds, counter_key,
  upsert, try_consume, find_counter, current_usage,
}

-- What an upsert makes of the count of its key, and whether it returns a row.
abbrev next : Option ℕ → ℕ → Option ℕ
next none limit = some 1
next (some n) limit = ite (dec_lt n limit) (some (n + 1)) (some n)

abbrev granted : Option ℕ → ℕ → Bool
granted none limit = true
granted (some n) limit = ite (dec_lt n limit) true false

upsert-granted :
    (k : CounterKey) (e l : ℕ) (cs : List Counter)
    → (upsert k e l cs).1 ≡ granted (find_counter k cs) l
unfolding upsert find_counter
upsert-granted k e l [] = refl
upsert-granted k e l (c ∷ cs) = ground (arith, upsert-granted k e l cs)

find_counter-upsert :
    (k j : CounterKey) (e l : ℕ) (cs : List Counter)
    → find_counter j (upsert k e l cs).0
      ≡ ite (CounterKey-discrete k j) (next (find_counter k cs) l) (find_counter j cs)
unfolding upsert find_counter
find_counter-upsert k j e l [] = ground arith
find_counter-upsert k j e l (c ∷ cs) = ground (arith, find_counter-upsert k j e l cs)

module _ (scope : UsageScope) (subject : String) (window : UsageWindow) where
  abbrev here : CounterKey
  here = counter_key scope subject window

  -- Under a positive limit a request is granted exactly while the usage is below the limit; then the
  -- usage of its own key rises by one, and otherwise, and for every other key, it stays.
  pub try_consume_lem :
      (limit : ℕ) (cs : List Counter)
      → 0 < limit
      → (((try_consume scope subject window limit cs).1 ≡ true)
          ↔ (current_usage scope subject window cs < limit))
        × (current_usage scope subject window (try_consume scope subject window limit cs).0
            ≡ current_usage scope subject window cs
              + (if (try_consume scope subject window limit cs).1 then 1 else 0))
        × ((scope' : UsageScope) (subject' : String) (window' : UsageWindow)
            → counter_key scope' subject' window' ≢ here
            → current_usage scope' subject' window' (try_consume scope subject window limit cs).0
              ≡ current_usage scope' subject' window' cs)
  unfolding try_consume current_usage
  try_consume_lem limit cs pos =
      let e : ℕ = window.reset_at_ms / 1000 + retention_grace_seconds in
      (
        ground (arith, upsert-granted here e limit cs),
        ground (arith, upsert-granted here e limit cs, find_counter-upsert here here e limit cs),
        λ scope' subject' window' other.
            let j : CounterKey = counter_key scope' subject' window' in
            ground (arith, find_counter-upsert here j e limit cs),
      )

  -- Requests made one after the other, and how many of them are granted.
  unfoldable pub consume_times : ℕ → ℕ → List Counter → List Counter × ℕ
  consume_times zero limit cs = (cs, 0)
  consume_times (suc n) limit cs =
      let (cs', done) = try_consume scope subject window limit cs in
      let (cs'', k) = consume_times n limit cs' in (cs'', k + (if done then 1 else 0))

  -- Of any number of requests in one window, a positive limit lets exactly as many through as are
  -- left of it.
  pub consume_times-granted :
      (n limit : ℕ) (cs : List Counter)
      → 0 < limit
      → (consume_times n limit cs).1 ≡ min n (limit - current_usage scope subject window cs)
  unfolding consume_times
  consume_times-granted zero limit cs pos = omega arith
  consume_times-granted (suc n) limit cs pos =
      let next_cs = (try_consume scope subject window limit cs).0 in
      let (grants, after, _) = try_consume_lem limit cs pos in
      ground (arith, grants, after, consume_times-granted n limit next_cs pos)
