-- ===== src/Limits/Tests.antt =====
-- Runs of the limits' code on concrete times, counters and flags.
use standin_app_server.Prelude.{
  ◌-◌, min, ℕ, ◌+◌, ◌*◌, ◌≡◌, refl, List, [], ◌∷◌, arith, Option, some, codes,
}
use standin_app_server.Limits.Calendar.{civil, date_text, calendar}
use standin_app_server.Limits.Calendar.Inverse.{date_text-civil-injective}
use standin_app_server.Limits.Policy.{
  UsageWindow, kst_iso_string, weekly_window, kst_week_start_day, day_ms,
}
use standin_app_server.Limits.Policy.Windows.{IsDated}
use standin_app_server.Limits.Counters.{ip_register, counter_key, Counter, current_usage}
use standin_app_server.Limits.Counters.Usage.{consume_times, consume_times-granted}
use standin_app_server.Limits.Flags.{FlagRow, Cached, analysis_enabled, read_flag}

test_date : date_text (civil 20676) ≡ codes "2026-08-11"
unfolding calendar
test_date = refl

test_weekly : (weekly_window 1786422896789).key ≡ codes "2026-08-10"
unfolding weekly_window kst_week_start_day calendar
test_weekly = refl

test_kst_iso_string : kst_iso_string 1786460400000 ≡ codes "2026-08-12T00:00:00.000+09:00"
unfolding kst_iso_string calendar
test_kst_iso_string = refl

-- A Tuesday evening of August 2026.
abbrev tuesday : ℕ
tuesday = 1786422896789

tuesday-IsDated : IsDated tuesday
tuesday-IsDated = record { from = omega arith; before = omega arith }

later-IsDated : IsDated (tuesday + 8 * day_ms)
later-IsDated = record { from = omega arith; before = omega arith }

abbrev august_day : ℕ
august_day = 20676

date_text-civil-injective_example : august_day ≡ august_day
date_text-civil-injective_example =
    date_text-civil-injective august_day august_day (omega arith) (omega arith) refl

abbrev minute : UsageWindow
minute = record { key = codes "60"; reset_at_ms = 120000 }

abbrev one_used : List Counter
one_used =
    record { key = counter_key ip_register "198.51.100.7" minute; count = 1; expires_at = 3720 }
    ∷ []

consume_times-granted_example :
    (consume_times ip_register "198.51.100.7" minute 5 2 one_used).1
    ≡ min 5 (2 - current_usage ip_register "198.51.100.7" minute one_used)
consume_times-granted_example =
    consume_times-granted ip_register "198.51.100.7" minute 5 2 one_used (omega arith)

abbrev paused : FlagRow
paused = record { value = "false"; reason = some "maintenance"; updated_at = 900 }

abbrev old_copy : Option Cached
old_copy = some (record { flag = read_flag analysis_enabled (some paused); read_at_ms = 1000 })
