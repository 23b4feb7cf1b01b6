-- ===== src/Limits/Calendar/Inverse.antt =====
-- A calendar date determines its day: `day_of` undoes `civil`, and the printed text determines the
-- date.
use standin_app_server.Prelude.{
  ℕ, zero, suc, ◌+◌, ◌-◌, ◌*◌, ◌≤◌, ◌<◌, ◌≡◌, ap, ◌∙◌, sym, Bool, true, false, List, [], ◌∷◌, arith,
  ltb, ltb_false→le, Bool-cases, inl, inr, All, length,
}
use standin_app_server.Limits.Calendar.{
  Date, is_leap, days_in_year, year_from, month_lengths, month_from, year_fuel, civil, dated,
  in_year, days_before_year, days_before_month, day_of, date_text,
}

-- The year loop: `n` whole years lie before the day, and the rest lies within the year.
record YearSpec (y d : ℕ) (res : ℕ × ℕ) : Type 0 where
  n : ℕ
  year : res.0 ≡ y + n
  split : d ≡ days_before_year y n + res.1
  within : res.1 < days_in_year res.0

days_in_year_bounds : (y : ℕ) → (365 ≤ days_in_year y) × (days_in_year y ≤ 366)
unfolding days_in_year
days_in_year_bounds y = ground arith

year_from-YearSpec : (f y d : ℕ) → d < 365 * f → YearSpec y d (year_from f y d)
unfolding year_from days_before_year
year_from-YearSpec zero y d h = absurd (omega arith)
year_from-YearSpec (suc f) y d h = elim (Bool-cases (ltb d (days_in_year y))) [
  | inl e ↦ rw e (record { n = 0; year = omega arith; split = omega arith; within = ground arith })
  | inr e ↦
      let ih =
        year_from-YearSpec f (suc y) (d - days_in_year y)
          (omega (arith, days_in_year_bounds y, ltb_false→le _ _ e)) in
      rw e (record {
        n = suc ih.n;
        year = omega (arith, ih.year);
        split = ground (arith, ih.split);
        within = ih.within;
      })
]

total : List ℕ → ℕ
total [] = 0
total (n ∷ ns) = n + total ns

record MonthSpec (ns : List ℕ) (m d : ℕ) (res : ℕ × ℕ) : Type 0 where
  j : ℕ
  month : res.0 ≡ m + j
  split : d + 1 ≡ days_before_month ns j + res.1
  first : 0 < res.1
  few : j < length ns

month_from-MonthSpec : (ns : List ℕ) (m d : ℕ) → d < total ns → MonthSpec ns m d (month_from ns m d)
unfolding month_from total days_before_month
month_from-MonthSpec [] m d h = absurd (omega arith)
month_from-MonthSpec (n ∷ ns) m d h = elim (Bool-cases (ltb d n)) [
  | inl e ↦ rw e (record {
    j = 0;
    month = omega arith;
    split = omega arith;
    first = omega arith;
    few = omega arith;
  })
  | inr e ↦
      let ih = month_from-MonthSpec ns (suc m) (d - n) (ground arith) in
      rw e (record {
        j = suc ih.j;
        month = omega (arith, ih.month);
        split = ground (arith, ih.split);
        first = ih.first;
        few = omega (arith, ih.few);
      })
]

total-month_lengths : (y : ℕ) → total (month_lengths (is_leap y)) ≡ days_in_year y
unfolding total days_in_year
total-month_lengths y = ground arith

day_of-dated :
    (y r d n : ℕ) (mk : ℕ × ℕ)
    → y ≡ 1970 + n
    → d ≡ days_before_year 1970 n + r
    → MonthSpec (month_lengths (is_leap y)) 1 r mk
    → day_of (dated y mk) ≡ d
unfolding day_of dated
day_of-dated y r d n (m, k) hy hd ms =
    let years : y - 1970 ≡ n = omega arith in
    let months : m - 1 ≡ ms.j = omega (arith, ms.month) in
    rw (years, months) (omega (arith, ms.split, ms.first))

day_of-in_year : (d : ℕ) (yr : ℕ × ℕ) → YearSpec 1970 d yr → day_of (in_year yr) ≡ d
unfolding in_year
day_of-in_year d (y, r) ys = day_of-dated y r d ys.n _ ys.year ys.split (
    month_from-MonthSpec (month_lengths (is_leap y)) 1 r
      (omega (arith, total-month_lengths y, ys.within)))

-- Reading back the date of a day gives the day.
pub day_of-civil : (d : ℕ) → day_of (civil d) ≡ d
unfolding civil
day_of-civil d =
    day_of-in_year d (year_from (year_fuel d) 1970 d)
      (year_from-YearSpec (year_fuel d) 1970 d (omega arith))

month_from-day-le :
    (b : ℕ) (ns : List ℕ) (m d : ℕ) → All (λ n. n ≤ b) ns → d < total ns → (month_from ns m d).1 ≤ b
unfolding month_from total
month_from-day-le b [] m d a h = absurd (omega arith)
month_from-day-le b (n ∷ ns) m d (here, later) h =
    ground (arith, month_from-day-le b ns (suc m) (d - n) later)

-- The parts fit the digits that the text has for them.
record IsPrintable (c : Date) : Type 0 where
  year : c.year < 10000
  month : c.month < 100
  day : c.day < 100

date_text-injective :
    (c e : Date) → IsPrintable c → IsPrintable e → date_text c ≡ date_text e → c ≡ e
unfolding date_text
date_text-injective c e hc he h = ground arith

short_months : (leap : Bool) → All (λ n. n ≤ 31) (month_lengths leap)
short_months true = omega arith
short_months false = omega arith

days_before_year-le : (y n : ℕ) → 365 * n ≤ days_before_year y n
unfolding days_before_year
days_before_year-le y zero = omega arith
days_before_year-le y (suc n) = omega (arith, days_in_year_bounds y, days_before_year-le (suc y) n)

-- The days up to the year 9997.
abbrev pub printable_days : ℕ
printable_days = 2930000

in_year-IsPrintable :
    (d : ℕ) (yr : ℕ × ℕ) → d < printable_days → YearSpec 1970 d yr → IsPrintable (in_year yr)
unfolding in_year dated
in_year-IsPrintable d (y, r) h ys =
    let fits : r < total (month_lengths (is_leap y)) =
      omega (arith, total-month_lengths y, ys.within) in
    let ms = month_from-MonthSpec (month_lengths (is_leap y)) 1 r fits in
    let le = month_from-day-le 31 _ 1 r (short_months (is_leap y)) fits in
    record {
      year = omega (arith, ys.year, ys.split, days_before_year-le 1970 ys.n);
      month = omega (arith, ms.month, ms.few);
      day = omega (arith, le);
    }

civil-IsPrintable : (d : ℕ) → d < printable_days → IsPrintable (civil d)
unfolding civil
civil-IsPrintable d h =
    in_year-IsPrintable d (year_from (year_fuel d) 1970 d) h
      (year_from-YearSpec (year_fuel d) 1970 d (omega arith))

-- Two days have the same text only if they are the same day.
pub date_text-civil-injective :
    (d e : ℕ)
    → d < printable_days
    → e < printable_days
    → date_text (civil d) ≡ date_text (civil e)
    → d ≡ e
date_text-civil-injective d e hd he h =
    sym (day_of-civil d)
    ∙ ap day_of (date_text-injective _ _ (civil-IsPrintable d hd) (civil-IsPrintable e he) h)
    ∙ day_of-civil e
