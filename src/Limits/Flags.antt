-- ===== src/Limits/Flags.antt =====
-- limits/flags.ts: the switch that pauses the analysis. Its row of service_flags is shared by all
-- processes; each process keeps the flag that it read last for a short time. The time and the answer
-- of the database are arguments of each call; logging is left out, the notifications are returned.
pub mod Freshness
use standin_app_server.Prelude.{
  ℕ, ◌+◌, ◌-◌, ◌<◌, ◌≡◌, refl, Bool, true, false, List, [], ◌∷◌, arith, if◌then◌else◌, ltb, ite,
  dec_lt, String, String-discrete, Option, none, some,
}

pub record FlagRow : Type 0 where
  pub value : String
  pub reason : Option String
  pub updated_at : ℕ

pub record ServiceFlag : Type 0 where
  pub key : String
  pub enabled : Bool
  pub reason : Option String
  pub updated_at : Option ℕ

pub record Cached : Type 0 where
  pub flag : ServiceFlag
  pub read_at_ms : ℕ

abbrev pub analysis_enabled : String
analysis_enabled = "analysis_enabled"

abbrev pub cache_ttl_ms : ℕ
cache_ttl_ms = 5000

-- No row means enabled.
unfoldable pub read_flag : String → Option FlagRow → ServiceFlag
read_flag key none = record { key = key; enabled = true; reason = none; updated_at = none }
read_flag key (some row) = record {
  key = key;
  enabled = ite (String-discrete row.value "true") true false;
  reason = row.reason;
  updated_at = some row.updated_at;
}

pub data Answer : Type 0 where
  row : Option FlagRow → Answer
  failed : Answer

pub data Alert : Type 0 where
  flag_read_failed analysis_resumed analysis_halted : Alert

pub record Outcome : Type 0 where
  pub cache : Option Cached
  pub flag : ServiceFlag
  pub alerts : List Alert

-- `cache?.flag ?? { enabled: true, ... }`
last_flag : Option Cached → ServiceFlag
last_flag none = record { key = analysis_enabled; enabled = true; reason = none; updated_at = none }
last_flag (some c) = c.flag

query_flag : Option Cached → ℕ → Answer → Outcome
query_flag cache now (row r) =
    let flag = read_flag analysis_enabled r in
    record { cache = some (record { flag = flag; read_at_ms = now }); flag = flag; alerts = [] }
query_flag cache now failed = record {
  cache = cache;
  flag = last_flag cache;
  alerts = flag_read_failed ∷ [];
}

-- The database is asked only when there is no cached flag, or it is too old. A cached flag from the
-- future (the clock went back) counts as fresh.
unfoldable pub get_analysis_flag : Option Cached → ℕ → Answer → Outcome
unfolding query_flag last_flag
get_analysis_flag none now answer = query_flag none now answer
get_analysis_flag (some c) now answer =
    if ltb now (c.read_at_ms + cache_ttl_ms)
    then record { cache = some c; flag = c.flag; alerts = [] }
    else query_flag (some c) now answer

unfoldable pub is_analysis_enabled : Option Cached → ℕ → Answer → Bool
unfolding get_analysis_flag
is_analysis_enabled cache now answer = (get_analysis_flag cache now answer).flag.enabled

bool_text : Bool → String
bool_text true = "true"
bool_text false = "false"

-- The row that is written, and what the call leaves in its own process. `updated_at` is the time
-- before the write, `done_ms` the time after it.
unfoldable pub set_analysis_enabled : Bool → Option String → ℕ → ℕ → FlagRow × Outcome
unfolding bool_text
set_analysis_enabled enabled reason updated_at done_ms =
    let flag : ServiceFlag = record {
      key = analysis_enabled;
      enabled = enabled;
      reason = reason;
      updated_at = some updated_at;
    } in
    (
      record { value = bool_text enabled; reason = reason; updated_at = updated_at },
      record {
        cache = some (record { flag = flag; read_at_ms = done_ms });
        flag = flag;
        alerts = (if enabled then analysis_resumed else analysis_halted) ∷ [];
      },
    )
