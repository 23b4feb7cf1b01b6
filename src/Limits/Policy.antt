-- ===== src/Limits/Policy.antt =====
-- limits/policy.ts: the windows in which usage is counted, and when a refused client may retry.
-- Times are natural numbers of milliseconds; `week_start_day` is the code's for days from
-- 1970-01-05 on (before that Monday the code's difference is negative).
pub mod Windows
use standin_app_server.Prelude.{
  ℕ, ◌+◌, ◌-◌, ◌*◌, ◌/◌, ◌%◌, ◌<◌, ◌≡◌, refl, Bool, true, false, ◌||◌, List, [], ◌∷◌, ◌++◌, arith,
  if◌then◌else◌, leb, ◌==◌, Text, decimal, digit, max, Option, String, String-discrete, codes, ite,
}
use standin_app_server.Limits.Calendar.{civil, date_text, calendar}

abbrev pub kst_offset_ms : ℕ
kst_offset_ms = 9 * 60 * 60 * 1000

abbrev pub day_ms : ℕ
day_ms = 24 * 60 * 60 * 1000

pub record UsageWindow : Type 0 where
  pub key : Text
  pub reset_at_ms : ℕ

-- The day of a time, in Korea.
abbrev pub kst_day : ℕ → ℕ
kst_day now_ms = (now_ms + kst_offset_ms) / day_ms

unfoldable pub kst_day_key : ℕ → Text
kst_day_key now_ms = date_text (civil (kst_day now_ms))

unfoldable pub next_kst_midnight_ms : ℕ → ℕ
next_kst_midnight_ms now_ms =
    let shifted = now_ms + kst_offset_ms in (shifted / day_ms + 1) * day_ms - kst_offset_ms

two_digits : ℕ → Text
two_digits n = digit (n / 10) ∷ digit n ∷ []

-- 'YYYY-MM-DDTHH:MM:SS.mmm+09:00'
unfoldable pub kst_iso_string : ℕ → Text
unfolding two_digits
kst_iso_string ms =
    let shifted = ms + kst_offset_ms in
    let rest = shifted % day_ms in
    date_text (civil (shifted / day_ms))
    ++ (b'T' ∷ two_digits (rest / (60 * 60 * 1000)))
    ++ (b':' ∷ two_digits (rest / (60 * 1000) % 60))
    ++ (b':' ∷ two_digits (rest / 1000 % 60))
    ++ (b'.' ∷ digit (rest % 1000 / 100) ∷ two_digits (rest % 100))
    ++ (b'+' ∷ b'0' ∷ b'9' ∷ b':' ∷ b'0' ∷ b'0' ∷ [])

unfoldable pub daily_window : ℕ → UsageWindow
unfolding kst_day_key next_kst_midnight_ms
daily_window now_ms = record { key = kst_day_key now_ms; reset_at_ms = next_kst_midnight_ms now_ms }

unfoldable pub kst_week_start_day : ℕ → ℕ
kst_week_start_day now_ms = let day = kst_day now_ms in day - (day + 3) % 7

unfoldable pub kst_week_key : ℕ → Text
kst_week_key now_ms = date_text (civil (kst_week_start_day now_ms))

unfoldable pub next_kst_week_start_ms : ℕ → ℕ
next_kst_week_start_ms now_ms = (kst_week_start_day now_ms + 7) * day_ms - kst_offset_ms

unfoldable pub weekly_window : ℕ → UsageWindow
unfolding kst_week_key next_kst_week_start_ms
weekly_window now_ms = record {
  key = kst_week_key now_ms;
  reset_at_ms = next_kst_week_start_ms now_ms;
}

unfoldable pub fixed_window : ℕ → ℕ → UsageWindow
fixed_window now_ms window_seconds =
    let window_ms = window_seconds * 1000 in
    let start_ms = now_ms / window_ms * window_ms in
    record { key = decimal (start_ms / 1000); reset_at_ms = start_ms + window_ms }

-- A configured limit, `Number(...)` of an environment variable: NaN and the infinities, a negative
-- whole number, or a whole number from 0 on.
pub data Limit : Type 0 where
  not_finite : Limit
  negative : ℕ → Limit
  whole : ℕ → Limit

unfoldable pub is_disabled : Limit → Bool
is_disabled not_finite = true
is_disabled (negative n) = true
is_disabled (whole n) = leb n 0

-- The number that a comparison against an enabled limit reads.
abbrev pub limit_value : Limit → ℕ
limit_value not_finite = 0
limit_value (negative n) = 0
limit_value (whole n) = n

pub pos_of_enabled : (limit : Limit) → is_disabled limit ≡ false → 0 < limit_value limit
unfolding is_disabled
pos_of_enabled not_finite h = cc
pos_of_enabled (negative n) h = cc
pos_of_enabled (whole n) h = ground arith

-- `Math.max(1, Math.ceil((target - now) / 1000))`; a target in the past gives the minimum.
unfoldable pub seconds_until : ℕ → ℕ → ℕ
seconds_until target_ms now_ms = max 1 ((target_ms - now_ms + 999) / 1000)

pub data LimitCode : Type 0 where
  rate_limited weekly_quota_exceeded concurrency_limit global_quota_exceeded : LimitCode

-- The details that the refusals of a new job carry.
pub record LimitExceeded : Type 0 where
  pub code : LimitCode
  pub retry_after_seconds : ℕ
  pub limit : Option Limit
  pub retry_at : Option Text

unfoldable pub is_quota_exempt : String → List String → Bool
is_quota_exempt installation [] = false
is_quota_exempt installation (x ∷ exempt) =
    ite (String-discrete installation x) true (is_quota_exempt installation exempt)
