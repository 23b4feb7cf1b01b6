-- ===== src/Alerts/Tests.antt =====
-- A failure that repeats while its key is held.
use standin_app_server.Prelude.{
  ◌≡◌, refl, List, [], ◌∷◌, none, some, lookup, insert, erase, values, String-discrete, Bool-cases,
  arith,
}
use standin_app_server.Alerts.{
  Alert, p1, alert_key, drain, add, add_key, hold_keys, enqueue, suppress, count_again, flush,
  send_all, send, group, webhook_for, Severity-discrete,
}
use standin_app_server.Alerts.Delivery.{
  Event, raised, flushed, run, start, raised_times, accounted, step, run-reported,
}
use standin_app_server.Alerts.Timer.{
  AlertConfig, notify, notify_now, schedule_flush, schedule_from, flush_notifier, fire_timer,
}
use standin_app_server.Alerts.Timer.Scheduled
use standin_app_server.Alerts.Timer.Scheduled.{
  Call, notified, notified_now, fired, call, call_all, AllDue, IsAfter, last_fired, call_all-AllDue,
}
use standin_app_server.Alerts.Spacing.{run-IsSpaced}
use standin_app_server.Alerts.Sends.{sends, IsSpaced}

abbrev down : Alert
down = record { severity = p1; code = "INFERENCE_DOWN"; message = "down"; key = none; context = "" }

-- Sent, held back twice, sent again with the count.
abbrev outage : List Event
outage =
    raised down 1000 none
    ∷ flushed 11000
    ∷ raised down 12000 none
    ∷ raised down 13000 none
    ∷ flushed 21000
    ∷ raised down 320000 none
    ∷ flushed 330000
    ∷ []

outage_times : sends "P1:INFERENCE_DOWN" (run 300000 outage start).sent ≡ 330000 ∷ 11000 ∷ []
unfolding sends run step drain add add_key alert_key lookup insert erase values hold_keys enqueue
    suppress count_again String-discrete Bool-cases
outage_times = refl

run-reported_example :
    accounted "P1:INFERENCE_DOWN" (run 300000 outage start)
    ≡ raised_times "P1:INFERENCE_DOWN" outage
run-reported_example = run-reported "P1:INFERENCE_DOWN" 300000 outage

run-IsSpaced_example : IsSpaced 300000 (sends "P1:INFERENCE_DOWN" (run 300000 outage start).sent)
run-IsSpaced_example = run-IsSpaced "P1:INFERENCE_DOWN" 300000 0 outage (omega arith)

abbrev alert_config : AlertConfig
alert_config = record {
  webhooks = record { alert = "https://hook/a"; warn = ""; ops = "" };
  alert_max_per_flush = 5;
  suppress_ms = 300000;
  alert_flush_ms = 10000;
}

-- Raised, raised again before the timer, sent, held back, and sent at once at a shutdown.
abbrev calls : List Call
calls =
    notified down 1000 none
    ∷ notified down 4000 none
    ∷ fired 11000
    ∷ notified down 12000 none
    ∷ notified_now (record down { code = "SHUTDOWN" }) 13000 none
    ∷ notified (record down { code = "DB_DOWN" }) 14000 none
    ∷ []

-- The timer of the alert that was sent at once stays, and serves the next one.
calls_timer : (call_all alert_config calls Scheduled.start).flush_timer ≡ some 23000
unfolding call_all call notify notify_now schedule_flush schedule_from flush_notifier fire_timer
    flush drain add add_key alert_key lookup insert erase values hold_keys enqueue suppress
    count_again String-discrete Bool-cases send_all send group webhook_for Severity-discrete
calls_timer = refl

call_all-AllDue_example :
    AllDue 10000 (call_all alert_config calls Scheduled.start)
    × IsAfter 10000 (last_fired 0 calls) (call_all alert_config calls Scheduled.start).flush_timer
call_all-AllDue_example = call_all-AllDue alert_config 0 calls (omega arith)
