-- ===== src/Limits/Calendar.antt =====
-- What the code uses of the JavaScript `Date`: `toISOString().slice(0, 10)` of a day since 1970,
-- over the years 1970 to 9999, by ECMAScript's definition of a date (years, then months, of days).
pub mod Inverse
use standin_app_server.Prelude.{
  ℕ, zero, suc, ◌+◌, ◌-◌, ◌*◌, ◌/◌, ◌%◌, ◌≤◌, ◌<◌, ◌≡◌, refl, ap, ◌∙◌, sym, Bool, true, false, ◌&&◌,
  ◌||◌, not, List, [], ◌∷◌, ◌++◌, arith, if◌then◌else◌, ltb, ◌==◌, Bool-cases, inl, inr, Text,
  codes, digit,
}

pub record Date : Type 0 where
  pub year : ℕ
  pub month : ℕ
  pub day : ℕ

unfoldable pub is_leap : ℕ → Bool
is_leap y = (y % 4 == 0) && (not (y % 100 == 0) || (y % 400 == 0))

unfoldable pub days_in_year : ℕ → ℕ
unfolding is_leap
days_in_year y = if is_leap y then 366 else 365

-- The year that holds a day, and the day within it.
unfoldable pub year_from : ℕ → ℕ → ℕ → ℕ × ℕ
unfolding days_in_year
year_from zero y d = (y, d)
year_from (suc fuel) y d =
    let rest = year_from fuel (suc y) (d - days_in_year y) in
    if ltb d (days_in_year y) then (y, d) else rest

abbrev month_lengths : Bool → List ℕ
month_lengths leap =
    31 ∷ (if leap then 29 else 28) ∷ 31 ∷ 30 ∷ 31 ∷ 30 ∷ 31 ∷ 31 ∷ 30 ∷ 31 ∷ 30 ∷ 31 ∷ []

-- The month (from 1) and the day of the month (from 1).
unfoldable pub month_from : List ℕ → ℕ → ℕ → ℕ × ℕ
month_from [] m d = (m, d + 1)
month_from (n ∷ ns) m d =
    let rest = month_from ns (suc m) (d - n) in if ltb d n then (m, d + 1) else rest

-- Every year has at least 365 days, so this many rounds are enough.
abbrev year_fuel : ℕ → ℕ
year_fuel d = suc (d / 365)

dated : ℕ → ℕ × ℕ → Date
dated y (m, k) = record { year = y; month = m; day = k }

in_year : ℕ × ℕ → Date
in_year (y, r) = dated y (month_from (month_lengths (is_leap y)) 1 r)

unfoldable pub civil : ℕ → Date
unfolding in_year dated
civil d = in_year (year_from (year_fuel d) 1970 d)

-- The other way: the days before a year, and before a month of it.
unfoldable pub days_before_year : ℕ → ℕ → ℕ
unfolding days_in_year
days_before_year y zero = 0
days_before_year y (suc n) = days_in_year y + days_before_year (suc y) n

unfoldable pub days_before_month : List ℕ → ℕ → ℕ
days_before_month ns zero = 0
days_before_month [] (suc m) = 0
days_before_month (n ∷ ns) (suc m) = n + days_before_month ns m

unfoldable pub day_of : Date → ℕ
day_of c =
    days_before_year 1970 (c.year - 1970)
    + (days_before_month (month_lengths (is_leap c.year)) (c.month - 1) + (c.day - 1))

-- 'YYYY-MM-DD' with padding zeros.
unfoldable pub date_text : Date → Text
date_text c =
    digit (c.year / 1000)
    ∷ digit (c.year / 100)
    ∷ digit (c.year / 10)
    ∷ digit c.year
    ∷ b'-'
    ∷ digit (c.month / 10)
    ∷ digit c.month
    ∷ b'-'
    ∷ digit (c.day / 10)
    ∷ digit c.day
    ∷ []

-- What a computation of a date's text unfolds.
unfoldable pub calendar : Unit {0}
unfolding civil date_text year_from month_from is_leap
calendar = tt
