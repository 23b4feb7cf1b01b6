-- ===== src/Clients/Burst.antt =====
-- limits/middleware.ts: the burst limit of an address, over the counters of limits/store.ts.
use standin_app_server.Prelude.{
  ℕ, ◌+◌, ◌*◌, ◌≡◌, ◌≢◌, ◌≤◌, ◌<◌, inl, inr, ◌∙◌, false, List, arith, if◌then◌else◌, none, some,
  String, Text, Bool-cases,
}
use standin_app_server.Limits.Policy.{
  fixed_window, Limit, is_disabled, limit_value, pos_of_enabled, seconds_until, LimitExceeded,
  rate_limited,
}
use standin_app_server.Limits.Policy.Windows.{fixed_window_until_reset}
use standin_app_server.Limits.Counters.{UsageScope, Counter, try_consume, current_usage}
use standin_app_server.Limits.Counters.Usage.{try_consume_lem}
use standin_app_server.Clients.Address.{ip_bucket_key}

-- A request goes on, or is answered with 429 and its details.
pub data Verdict : Type 0 where
  goes_on : Verdict
  too_many : (error : LimitExceeded) (window_seconds : ℕ) → Verdict

module _ (digest : Text → String) (salt : Text) where
  unfoldable pub rate_limit_by_ip :
      UsageScope → Limit → ℕ → ℕ → Text → List Counter → List Counter × Verdict
  rate_limit_by_ip scope limit window_seconds now_ms ip counters =
      let window = fixed_window now_ms window_seconds in
      let (counted, ok) =
        try_consume scope (ip_bucket_key digest salt ip) window (limit_value limit) counters in
      if is_disabled limit
      then (counters, goes_on)
      else (if ok then (counted, goes_on) else (
        counted,
        too_many
            (record {
              code = rate_limited;
              retry_after_seconds = seconds_until window.reset_at_ms now_ms;
              limit = some limit;
              retry_at = none;
            })
            window_seconds,
      ))

  abbrev used : UsageScope → ℕ → ℕ → Text → List Counter → ℕ
  used scope window_seconds now_ms ip counters =
      current_usage scope (ip_bucket_key digest salt ip) (fixed_window now_ms window_seconds)
        counters

  -- What a verdict says of the counters before it.
  abbrev pub Decides :
      UsageScope → Limit → ℕ → ℕ → Text → List Counter → List Counter × Verdict → Type 0
  Decides scope limit window_seconds now_ms ip counters (counted, goes_on) =
      (used scope window_seconds now_ms ip counters < limit_value limit)
      × (used scope window_seconds now_ms ip counted
          ≡ used scope window_seconds now_ms ip counters + 1)
  Decides scope limit window_seconds now_ms ip counters (counted, too_many error seconds) =
      (limit_value limit ≤ used scope window_seconds now_ms ip counters)
      × (used scope window_seconds now_ms ip counted ≡ used scope window_seconds now_ms ip counters)
      × ((fixed_window (now_ms + 1000 * error.retry_after_seconds) window_seconds).key
          ≢ (fixed_window now_ms window_seconds).key)

  retry_elsewhere :
      (window_seconds now_ms : ℕ)
      → 0 < window_seconds
      → (fixed_window
          (now_ms + 1000 * seconds_until (fixed_window now_ms window_seconds).reset_at_ms now_ms)
          window_seconds).key
        ≢ (fixed_window now_ms window_seconds).key
  unfolding seconds_until
  retry_elsewhere window_seconds now_ms pos same =
      let wait : ℕ = 1000 * seconds_until (fixed_window now_ms window_seconds).reset_at_ms now_ms in
      let early =
        (fixed_window_until_reset window_seconds now_ms (now_ms + wait) pos (omega arith)).0 same in
      absurd (omega (arith, early))

  -- Under an enabled limit a request goes on exactly while its address has room in the window, and is
  -- then counted; a refused one is not counted, and a client that waits the seconds that it is told is
  -- counted in another window.
  pub rate_limit_by_ip-Decides :
      (scope : UsageScope) (limit : Limit) (window_seconds now_ms : ℕ) (ip : Text)
      (counters : List Counter)
      → is_disabled limit ≡ false
      → 0 < window_seconds
      → Decides scope limit window_seconds now_ms ip counters
          (rate_limit_by_ip scope limit window_seconds now_ms ip counters)
  unfolding rate_limit_by_ip
  rate_limit_by_ip-Decides scope limit window_seconds now_ms ip counters on pos =
      let window = fixed_window now_ms window_seconds in
      let key = ip_bucket_key digest salt ip in
      let attempt = try_consume scope key window (limit_value limit) counters in
      let (grants, after, other) =
        try_consume_lem scope key window (limit_value limit) counters (pos_of_enabled limit on) in
      elim (Bool-cases attempt.1) [
        | inl ok ↦ rw (on, ok) (grants.0 ok, after ∙ rw ok)
        | inr full ↦
            rw (on, full)
              (
                ground (arith, grants, full),
                after ∙ rw full (omega arith),
                retry_elsewhere window_seconds now_ms pos,
              )
      ]
