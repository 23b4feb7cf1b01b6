-- ===== src/Limits/Policy/Windows.antt =====
-- Each window's key stays the same exactly until the window's reset time.
use standin_app_server.Prelude.{
  ℕ, suc, dec_le, ◌+◌, ◌*◌, ◌/◌, ◌%◌, ◌≤◌, ◌<◌, ◌≡◌, ◌≢◌, sym, ap, ◌∙◌, ◌↔◌, arith, decimal,
  decimal-injective,
}
use native.Mathlib.Nat.{mul_assoc}
use standin_app_server.Limits.Calendar.{civil, date_text}
use standin_app_server.Limits.Calendar.Inverse.{printable_days, date_text-civil-injective}
use standin_app_server.Limits.Policy.{
  kst_offset_ms, day_ms, kst_day, kst_week_start_day, daily_window, weekly_window, fixed_window,
  seconds_until,
}

-- A time whose date the code prints with a four-digit year, from the first Monday of 1970 on.
pub record IsDated (now_ms : ℕ) : Type 0 where
  pub from : 4 * day_ms ≤ now_ms
  pub before : now_ms + kst_offset_ms < printable_days * day_ms

week_start_bounds :
    (now : ℕ)
    → 4 * day_ms ≤ now
    → ((kst_week_start_day now + 3) % 7 ≡ 0)
      × (kst_week_start_day now ≤ kst_day now)
      × (kst_day now < kst_week_start_day now + 7)
unfolding kst_week_start_day
week_start_bounds now h = (omega arith, omega arith, omega arith)

-- The weekly window ends at the next Monday 00:00 in Korea: after now, and at most a week away.
pub weekly_reset_bounds :
    (now : ℕ)
    → 4 * day_ms ≤ now
    → (now < (weekly_window now).reset_at_ms)
      × ((weekly_window now).reset_at_ms ≤ now + 7 * day_ms)
      × (((weekly_window now).reset_at_ms + kst_offset_ms) % (7 * day_ms) ≡ 4 * day_ms)
unfolding weekly_window
weekly_reset_bounds now h =
    let (m, l, u) = week_start_bounds now h in (omega arith, omega arith, omega arith)

text_iff :
    (d e : ℕ)
    → d < printable_days
    → e < printable_days
    → (date_text (civil d) ≡ date_text (civil e)) ↔ (d ≡ e)
text_iff d e hd he = (date_text-civil-injective d e hd he, λ p. ap (λ k. date_text (civil k)) p)

-- From a time a on, the weekly key is that of a exactly until a's reset time.
pub weekly_window_until_reset :
    (a b : ℕ)
    → IsDated a
    → IsDated b
    → a ≤ b
    → ((weekly_window b).key ≡ (weekly_window a).key) ↔ (b < (weekly_window a).reset_at_ms)
unfolding weekly_window
weekly_window_until_reset a b ha hb le =
    let (ma, la, ua) = week_start_bounds a ha.from in
    let (mb, lb, ub) = week_start_bounds b hb.from in
    let same =
      text_iff (kst_week_start_day b) (kst_week_start_day a) (omega (arith, hb.before))
        (omega (arith, ha.before)) in
    (λ e. let p = same.0 e in omega (arith, p), λ h. same.1 (omega arith))

-- The same of the daily key.
pub daily_window_until_reset :
    (a b : ℕ)
    → IsDated a
    → IsDated b
    → a ≤ b
    → ((daily_window b).key ≡ (daily_window a).key) ↔ (b < (daily_window a).reset_at_ms)
unfolding daily_window
daily_window_until_reset a b ha hb le =
    let same =
      text_iff (kst_day b) (kst_day a) (omega (arith, hb.before)) (omega (arith, ha.before)) in
    (λ e. let p = same.0 e in omega (arith, p), λ h. same.1 (omega arith))

start_seconds : (q s : ℕ) → q * (s * 1000) / 1000 ≡ q * s
start_seconds q s = rw (← mul_assoc q s 1000) (omega arith)

le_of_blocks : (x y w : ℕ) → x * w < y * w + w → x ≤ y
le_of_blocks x y w h = elim (dec_le x y) [
  | yes p ↦ p
  | no p ↦
      let q : suc y ≤ x = omega arith in
      let m : suc y * w ≤ x * w = grind arith in absurd (omega arith)
]

-- The same of a burst window of s seconds.
pub fixed_window_until_reset :
    (s a b : ℕ)
    → 0 < s
    → a ≤ b
    → ((fixed_window b s).key ≡ (fixed_window a s).key) ↔ (b < (fixed_window a s).reset_at_ms)
unfolding fixed_window
fixed_window_until_reset s a b pos le =
    let w : ℕ = s * 1000 in
    let lo : a / w * w ≤ a = grind arith in
    let hi : a < a / w * w + w = grind arith in
    let lo' : b / w * w ≤ b = grind arith in
    let hi' : b < b / w * w + w = grind arith in
    (
      λ e.
          let p : b / w * s ≡ a / w * s =
            sym (start_seconds (b / w) s) ∙ decimal-injective _ _ e ∙ start_seconds (a / w) s in
          omega (arith, p, hi'),
      λ h.
          let up = le_of_blocks (b / w) (a / w) w (omega (arith, lo', h)) in
          let down = le_of_blocks (a / w) (b / w) w (omega (arith, lo, hi')) in
          let q : b / w ≡ a / w = omega (arith, up, down) in ap (λ k. decimal (k * w / 1000)) q,
    )

-- A client that waits the seconds of a refused weekly quota is counted in another week.
pub weekly_retry :
    (now : ℕ)
    → IsDated now
    → IsDated (now + 8 * day_ms)
    → (weekly_window (now + 1000 * seconds_until (weekly_window now).reset_at_ms now)).key
      ≢ (weekly_window now).key
unfolding seconds_until
weekly_retry now h late =
    let (l, u, _) = weekly_reset_bounds now h.from in
    let wait : ℕ = 1000 * seconds_until (weekly_window now).reset_at_ms now in
    let enough : (weekly_window now).reset_at_ms ≤ now + wait = omega arith in
    let dated : IsDated (now + wait) = record {
      from = omega (arith, h.from);
      before = omega (arith, late.before);
    } in
    λ e.
      absurd (omega (arith, (weekly_window_until_reset now (now + wait) h dated (omega arith)).0 e))
