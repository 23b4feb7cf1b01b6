-- ===== src/Limits/Flags/Freshness.antt =====
-- How old an answer of the switch can be.
use standin_app_server.Prelude.{
  ℕ, ◌+◌, ◌≤◌, ◌<◌, ◌≡◌, refl, Bool, true, false, arith, ltb, ltb→lt, Bool-cases, String, Option,
  none, some, inl, inr, String-discrete,
}
use standin_app_server.Limits.Flags.{
  FlagRow, Cached, analysis_enabled, cache_ttl_ms, read_flag, Answer, row, get_analysis_flag,
  set_analysis_enabled,
}

-- The cached flag is what the table held at the time of the read; `table t` is its row at time t.
abbrev pub IsFrom : (ℕ → Option FlagRow) → ℕ → Option Cached → Type 0
IsFrom table now none = Unit
IsFrom table now (some c) =
    (c.read_at_ms ≤ now) × (c.flag ≡ read_flag analysis_enabled (table c.read_at_ms))

-- While the database answers, a flag is what the table held less than five seconds before, and the
-- cache stays a true copy.
pub get_analysis_flag_recent :
    (table : ℕ → Option FlagRow) (cache : Option Cached) (now : ℕ)
    → IsFrom table now cache
    → ((t : ℕ) × (t ≤ now)
        × (now < t + cache_ttl_ms)
        × ((get_analysis_flag cache now (row (table now))).flag
            ≡ read_flag analysis_enabled (table t)))
      × IsFrom table now (get_analysis_flag cache now (row (table now))).cache
unfolding get_analysis_flag
get_analysis_flag_recent table none now h =
    ((now, omega arith, omega arith, refl), (omega arith, refl))
get_analysis_flag_recent table (some c) now (past, same) =
    elim (Bool-cases (ltb now (c.read_at_ms + cache_ttl_ms))) [
      | inl e ↦ rw e ((c.read_at_ms, past, ltb→lt _ _ e, same), (past, same))
      | inr e ↦ rw e ((now, omega arith, omega arith, refl), (omega arith, refl))
    ]

-- A switch that is set is read back: at once in its own process, whatever the database answers, for
-- five seconds; and by every process that reads the new row.
pub get-set_analysis_enabled :
    (enabled : Bool) (reason : Option String) (at done now : ℕ) (answer : Answer)
    → done ≤ now
    → now < done + cache_ttl_ms
    → let (new_row, after) = set_analysis_enabled enabled reason at done in
      ((get_analysis_flag after.cache now answer).flag ≡ after.flag)
      × (read_flag analysis_enabled (some new_row) ≡ after.flag)
unfolding set_analysis_enabled get_analysis_flag read_flag String-discrete
get-set_analysis_enabled true reason at done now answer h l = (ground arith, refl)
get-set_analysis_enabled false reason at done now answer h l = (ground arith, refl)
