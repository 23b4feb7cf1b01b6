-- ===== src/Limits/Counters.antt =====
-- limits/store.ts: the table usage_counters, a row for each scope, subject and window, and the three
-- statements on it. A row's key is the table's primary key.
pub mod Usage
use standin_app_server.Prelude.{
  ℕ, suc, ◌+◌, ◌-◌, ◌/◌, ◌≤◌, ◌<◌, ◌≡◌, refl, Bool, true, false, List, [], ◌∷◌, arith, ite, dec_lt,
  Text, String, String-discrete, Text-discrete, Option, none, some, ℕ_discrete,
}
use standin_app_server.Limits.Policy.{UsageWindow}

pub data UsageScope : Type 0 where
  installation_week global_day ip_register ip_analyze semantic_search hand_preview
        semantic_model_preview :
      UsageScope

UsageScope-discrete : Discrete UsageScope
UsageScope-discrete = hlevel

pub record CounterKey : Type 0 where
  pub scope : UsageScope
  pub subject : String
  pub window_start : Text

unfoldable pub CounterKey-discrete : Discrete CounterKey
unfolding UsageScope-discrete String-discrete Text-discrete
CounterKey-discrete = hlevel (UsageScope-discrete, String-discrete, Text-discrete)

pub record Counter : Type 0 where
  pub key : CounterKey
  pub count : ℕ
  pub expires_at : ℕ

abbrev pub retention_grace_seconds : ℕ
retention_grace_seconds = 3600

abbrev pub counter_key : UsageScope → String → UsageWindow → CounterKey
counter_key scope subject window = record {
  scope = scope;
  subject = subject;
  window_start = window.key;
}

-- INSERT of a row with count 1; on a conflict of keys, count + 1 where count < limit. The flag is
-- whether a row came back.
unfoldable pub upsert : CounterKey → ℕ → ℕ → List Counter → List Counter × Bool
upsert k expires limit [] = (record { key = k; count = 1; expires_at = expires } ∷ [], true)
upsert k expires limit (c ∷ cs) =
    let (rest, done) = upsert k expires limit cs in
    ite (CounterKey-discrete c.key k)
      (ite (dec_lt c.count limit) (record c { count = c.count + 1 } ∷ cs, true) (c ∷ cs, false))
      (c ∷ rest, done)

unfoldable pub try_consume :
    UsageScope → String → UsageWindow → ℕ → List Counter → List Counter × Bool
try_consume scope subject window limit counters =
    upsert (counter_key scope subject window) (window.reset_at_ms / 1000 + retention_grace_seconds)
      limit counters

-- UPDATE of the row of a key: GREATEST(count - 1, 0).
unfoldable pub decrement : CounterKey → List Counter → List Counter
decrement k [] = []
decrement k (c ∷ cs) =
    ite (CounterKey-discrete c.key k) (record c { count = c.count - 1 } ∷ cs) (c ∷ decrement k cs)

unfoldable pub refund : UsageScope → String → UsageWindow → List Counter → List Counter
refund scope subject window counters = decrement (counter_key scope subject window) counters

unfoldable pub find_counter : CounterKey → List Counter → Option ℕ
find_counter k [] = none
find_counter k (c ∷ cs) = ite (CounterKey-discrete c.key k) (some c.count) (find_counter k cs)

abbrev pub or_zero : Option ℕ → ℕ
or_zero none = 0
or_zero (some n) = n

unfoldable pub current_usage : UsageScope → String → UsageWindow → List Counter → ℕ
current_usage scope subject window counters =
    or_zero (find_counter (counter_key scope subject window) counters)

-- What a computation with the counters unfolds.
unfoldable pub counting : Unit {0}
unfolding try_consume refund current_usage upsert decrement find_counter CounterKey-discrete
counting = tt
