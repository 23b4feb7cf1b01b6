-- ===== src/Alerts/Timer/Scheduled.antt =====
-- When a waiting alert is sent, over any sequence of alerts, firings of the timer and direct flushes.
use standin_app_server.Prelude.{
  ℕ, ◌+◌, ◌≤◌, ◌≡◌, refl, List, [], ◌∷◌, arith, String, Option, none, some, Bool-cases,
  Option-cases, inl, inr, subst, same, lookup, insert, values, All, All-weaken,
}
use standin_app_server.Alerts.{
  Alert, PendingAlert, alert_key, is_before, count_again, enqueue, suppress, add_key, add, drain,
  flush,
}
use standin_app_server.Alerts.Timer.{
  Notifier, AlertConfig, schedule_flush, schedule_from, notify, flush_notifier, notify_now,
  fire_timer,
}

pub data Call : Type 0 where
  notified notified_now : Alert → ℕ → Option String → Call
  fired flushed : ℕ → Call

unfoldable pub call : AlertConfig → Call → Notifier → Notifier
call config (notified alert now request_id) n = notify config alert now request_id n
call config (notified_now alert now request_id) n = (notify_now config alert now request_id n).0
call config (fired now) n = (fire_timer config now n).0
call config (flushed now) n = (flush_notifier config now n).0

unfoldable pub call_all : AlertConfig → List Call → Notifier → Notifier
call_all config [] n = n
call_all config (c ∷ cs) n = call_all config cs (call config c n)

abbrev pub start : Notifier
start = record {
  buffer = record { pending = []; suppressed_until = []; suppressed_counts = [] };
  flush_timer = none;
}

abbrev time_of : Call → ℕ
time_of (notified alert now request_id) = now
time_of (notified_now alert now request_id) = now
time_of (fired now) = now
time_of (flushed now) = now

-- The clock of the calls, from a time on.
abbrev pub IsClocked : ℕ → List Call → Type 0
IsClocked from [] = Unit
IsClocked from (c ∷ cs) = (from ≤ time_of c) × IsClocked (time_of c) cs

-- A flush is ahead, at most an interval after the alert was first raised.
abbrev pub IsDue : ℕ → Option ℕ → PendingAlert → Type 0
IsDue interval none e = ⊥
IsDue interval (some due) e = due ≤ e.first_at + interval

abbrev pub AllDue : ℕ → Notifier → Type 0
AllDue interval n = All (IsDue interval n.flush_timer) (values n.buffer.pending)

-- A timer is at most an interval ahead of the clock.
abbrev IsNear : ℕ → ℕ → Option ℕ → Type 0
IsNear interval clock none = Unit
IsNear interval clock (some due) = due ≤ clock + interval

-- The time of the last firing, or the one from which the clock runs.
abbrev pub last_fired : ℕ → List Call → ℕ
last_fired last [] = last
last_fired last (fired now ∷ cs) = last_fired now cs
last_fired last (_ ∷ cs) = last_fired last cs

-- A timer that is set is at least an interval after the last firing.
abbrev pub IsAfter : ℕ → ℕ → Option ℕ → Type 0
IsAfter interval last none = Unit
IsAfter interval last (some due) = last + interval ≤ due

All-lookup {ℓ} :
    {V : Type ℓ} (P : V → Type 0) (k : String) (v : V) (m : List (String × V))
    → All P (values m)
    → lookup k m ≡ some v
    → P v
unfolding lookup values
All-lookup P k v [] h e = cc
All-lookup P k v ((j, w) ∷ m) (h, hs) e = elim (Bool-cases (same j k)) [
  | inl here ↦ subst P (ground (arith, here)) h
  | inr there ↦ All-lookup P k v m hs (ground (arith, there))
]

All-insert {ℓ} :
    {V : Type ℓ} (P : V → Type 0) (k : String) (v : V) (m : List (String × V))
    → P v
    → All P (values m)
    → All P (values (insert k v m))
unfolding insert values
All-insert P k v [] p h = (p, tt)
All-insert P k v ((j, w) ∷ m) p (h, hs) = elim (Bool-cases (same j k)) [
  | inl here ↦ rw here (p, hs)
  | inr there ↦ rw there (h, All-insert P k v m p hs)
]

record IsScheduled (interval clock last : ℕ) (n : Notifier) : Type 0 where
  due : AllDue interval n
  near : IsNear interval clock n.flush_timer
  past : last ≤ clock
  after : IsAfter interval last n.flush_timer

IsNear-later :
    (interval clock now : ℕ) (timer : Option ℕ)
    → clock ≤ now
    → IsNear interval clock timer
    → IsNear interval now timer
IsNear-later interval clock now none later near = tt
IsNear-later interval clock now (some due) later near = omega arith

schedule_from-IsNear :
    (interval clock now : ℕ) (timer : Option ℕ)
    → clock ≤ now
    → IsNear interval clock timer
    → IsNear interval now (schedule_from timer (now + interval))
unfolding schedule_from
schedule_from-IsNear interval clock now none later near = omega arith
schedule_from-IsNear interval clock now (some due) later near = omega arith

schedule_from-IsAfter :
    (interval last now : ℕ) (timer : Option ℕ)
    → last ≤ now
    → IsAfter interval last timer
    → IsAfter interval last (schedule_from timer (now + interval))
unfolding schedule_from
schedule_from-IsAfter interval last now none past after = omega arith
schedule_from-IsAfter interval last now (some due) past after = after

-- An alert that is raised now is in time for the timer, and those that waited keep theirs.
schedule_from-IsDue :
    (interval clock now : ℕ) (timer : Option ℕ) (e : PendingAlert)
    → clock ≤ now
    → IsNear interval clock timer
    → e.first_at ≡ now
    → IsDue interval (schedule_from timer (now + interval)) e
unfolding schedule_from
schedule_from-IsDue interval clock now none e later near first = omega arith
schedule_from-IsDue interval clock now (some due) e later near first = omega arith

schedule_from-keeps :
    (interval next : ℕ) (timer : Option ℕ) (e : PendingAlert)
    → IsDue interval timer e
    → IsDue interval (schedule_from timer next) e
unfolding schedule_from
schedule_from-keeps interval next none e h = absurd h
schedule_from-keeps interval next (some due) e h = h

count_again-IsDue :
    (interval now : ℕ) (timer : Option ℕ) (e : PendingAlert)
    → IsDue interval timer e
    → IsDue interval timer (count_again now e)
unfolding count_again
count_again-IsDue interval now none e h = h
count_again-IsDue interval now (some due) e h = h

module _ (config : AlertConfig) (clock last now : ℕ) (n : Notifier) (later : clock ≤ now)
    (kept : IsScheduled config.alert_flush_ms clock last n) where
  past_now : last ≤ now
  past_now = let past = kept.past in omega arith

  IsNear-now : IsNear config.alert_flush_ms now n.flush_timer
  IsNear-now = IsNear-later config.alert_flush_ms clock now n.flush_timer later kept.near

  enqueued-IsScheduled :
      (alert : Alert) (request_id : Option String)
      → IsScheduled config.alert_flush_ms now last (
          schedule_flush config now
            (record n { buffer = enqueue (alert_key alert) alert now request_id n.buffer }))
  unfolding schedule_flush enqueue
  enqueued-IsScheduled alert request_id = record {
    due =
        All-insert _ (alert_key alert) _ n.buffer.pending
          (schedule_from-IsDue config.alert_flush_ms clock now n.flush_timer _ later kept.near refl)
          (All-weaken _ _ (values n.buffer.pending)
            (schedule_from-keeps config.alert_flush_ms (now + config.alert_flush_ms) n.flush_timer)
            kept.due);
    near = schedule_from-IsNear config.alert_flush_ms clock now n.flush_timer later kept.near;
    past = past_now;
    after = schedule_from-IsAfter config.alert_flush_ms last now n.flush_timer past_now kept.after;
  }

  notify-IsScheduled :
      (alert : Alert) (request_id : Option String)
      → IsScheduled config.alert_flush_ms now last (notify config alert now request_id n)
  unfolding notify add add_key suppress
  notify-IsScheduled alert request_id =
      elim (Option-cases (lookup (alert_key alert) n.buffer.pending)) [
        | inr (old, waiting) ↦
            rw (add_key, waiting)
              (record {
                due =
                    All-insert _ (alert_key alert) _ n.buffer.pending
                      (count_again-IsDue config.alert_flush_ms now n.flush_timer old
                        (All-lookup _ (alert_key alert) old n.buffer.pending kept.due waiting))
                      kept.due;
                near = IsNear-now;
                past = past_now;
                after = kept.after;
              })
        | inl free ↦
            elim (Bool-cases (is_before now (lookup (alert_key alert) n.buffer.suppressed_until))) [
              | inl held ↦
                  rw (add_key, free, held)
                    (record {
                      due = kept.due;
                      near = IsNear-now;
                      past = past_now;
                      after = kept.after;
                    })
              | inr open_now ↦ rw (add_key, free, open_now) (enqueued-IsScheduled alert request_id)
            ]
      ]

  flush_notifier-IsScheduled :
      IsScheduled config.alert_flush_ms now last (flush_notifier config now n).0
  unfolding flush_notifier flush drain values
  flush_notifier-IsScheduled = record {
    due = tt;
    near = IsNear-now;
    past = past_now;
    after = kept.after;
  }

fire_timer-IsScheduled :
    (config : AlertConfig) (clock last now : ℕ) (n : Notifier)
    → clock ≤ now
    → IsScheduled config.alert_flush_ms clock last n
    → IsScheduled config.alert_flush_ms now now (fire_timer config now n).0
unfolding fire_timer flush_notifier flush drain values
fire_timer-IsScheduled config clock last now n later kept = elim (Option-cases n.flush_timer) [
  | inl idle ↦
      rw (fire_timer, idle)
        (record {
          due =
              subst (λ t. All (IsDue config.alert_flush_ms t) (values n.buffer.pending)) idle
                kept.due;
          near = tt;
          past = omega arith;
          after = tt;
        })
  | inr (due, set) ↦
      rw (fire_timer, set) (record { due = tt; near = tt; past = omega arith; after = tt })
]

call_all-IsScheduled :
    (config : AlertConfig) (clock last : ℕ) (calls : List Call) (n : Notifier)
    → IsClocked clock calls
    → IsScheduled config.alert_flush_ms clock last n
    → AllDue config.alert_flush_ms (call_all config calls n)
      × IsAfter config.alert_flush_ms (last_fired last calls) (call_all config calls n).flush_timer
unfolding call_all call notify_now
call_all-IsScheduled config clock last [] n c kept = (kept.due, kept.after)
call_all-IsScheduled config clock last (notified alert now request_id ∷ cs) n (c, later) kept =
    call_all-IsScheduled config now last cs _ later
      (notify-IsScheduled config clock last now n c kept alert request_id)
call_all-IsScheduled config clock last (notified_now alert now request_id ∷ cs) n (c, later) kept =
    call_all-IsScheduled config now last cs _ later (
      flush_notifier-IsScheduled config now last now _ (omega arith)
        (notify-IsScheduled config clock last now n c kept alert request_id))
call_all-IsScheduled config clock last (fired now ∷ cs) n (c, later) kept =
    call_all-IsScheduled config now now cs _ later
      (fire_timer-IsScheduled config clock last now n c kept)
call_all-IsScheduled config clock last (flushed now ∷ cs) n (c, later) kept =
    call_all-IsScheduled config now last cs _ later
      (flush_notifier-IsScheduled config clock last now n c kept)

-- While the clock does not run backwards, every alert that waits has a flush ahead of it: the timer is
-- set, for a time at most the interval of the flushes after the alert was first raised. A timer that is
-- set is for a time at least an interval after the last firing, or after the start where none fired.
pub call_all-AllDue :
    (config : AlertConfig) (clock : ℕ) (calls : List Call)
    → IsClocked clock calls
    → AllDue config.alert_flush_ms (call_all config calls start)
      × IsAfter config.alert_flush_ms
          (last_fired clock calls)
          (call_all config calls start).flush_timer
unfolding values
call_all-AllDue config clock calls c =
    call_all-IsScheduled config clock clock calls start c
      (record { due = tt; near = tt; past = omega arith; after = tt })
