-- ===== src/Alerts/Timer.antt =====
-- notify.ts: notify, notifyNow and the timer of the next flush. A timer is the time at which it is due;
-- `flush` hands its messages to the caller here.
pub mod Scheduled
use standin_app_server.Prelude.{
  ℕ, ◌+◌, Bool, true, false, List, [], ◌∷◌, String, Option, none, some, if◌then◌else◌,
}
use standin_app_server.Alerts.{Alert, AlertBuffer, add, drain, Webhooks, Message, flush}

-- `buffer` and `flushTimer`.
pub record Notifier : Type 0 where
  pub buffer : AlertBuffer
  pub flush_timer : Option ℕ

pub record AlertConfig : Type 0 where
  pub webhooks : Webhooks
  pub alert_max_per_flush : ℕ
  pub suppress_ms : ℕ
  pub alert_flush_ms : ℕ

unfoldable pub schedule_from : Option ℕ → ℕ → Option ℕ
schedule_from (some due) next = some due
schedule_from none next = some next

-- A timer that is set stays.
unfoldable pub schedule_flush : AlertConfig → ℕ → Notifier → Notifier
schedule_flush config now n = record n {
  flush_timer = schedule_from n.flush_timer (now + config.alert_flush_ms);
}

unfoldable pub notify : AlertConfig → Alert → ℕ → Option String → Notifier → Notifier
notify config alert now request_id n =
    let (b, waits) = add alert now request_id n.buffer in
    let n' = record n { buffer = b } in if waits then schedule_flush config now n' else n'

unfoldable pub flush_notifier : AlertConfig → ℕ → Notifier → Notifier × List Message
flush_notifier config now n =
    let (b, messages) =
      flush config.webhooks config.alert_max_per_flush config.suppress_ms now n.buffer in
    (record n { buffer = b }, messages)

unfoldable pub notify_now :
    AlertConfig → Alert → ℕ → Option String → Notifier → Notifier × List Message
notify_now config alert now request_id n =
    flush_notifier config now (notify config alert now request_id n)

fire_at : Option ℕ → AlertConfig → ℕ → Notifier → Notifier × List Message
fire_at none config now n = (n, [])
fire_at (some due) config now n = flush_notifier config now (record n { flush_timer = none })

-- The callback of the timer, where one is set.
unfoldable pub fire_timer : AlertConfig → ℕ → Notifier → Notifier × List Message
unfolding fire_at
fire_timer config now n = fire_at n.flush_timer config now n
