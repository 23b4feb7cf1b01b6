-- ===== src/Alerts/Delivery.antt =====
-- What a buffer hands over to be sent, in any sequence of alerts and flushes. Whether it is then posted
-- to a webhook is not stated here.
use standin_app_server.Prelude.{
  ℕ, ◌+◌, ◌≡◌, inl, inr, refl, sym, ◌∙◌, List, [], ◌∷◌, arith, if◌then◌else◌, String, Option, none,
  some, Bool-cases, Option-cases, same, lookup, insert, values, lookup-insert, lookup-erase, All,
}
use standin_app_server.Alerts.{
  Alert, PendingAlert, alert_key, AlertBuffer, or_zero, is_before, count_again, enqueue, suppress,
  add_key, add, drain,
}

pub data Event : Type 0 where
  raised : Alert → ℕ → Option String → Event
  flushed : ℕ → Event

-- A buffer and the alerts that it has handed over to be sent, with their times, the latest first.
pub record History : Type 0 where
  pub buffer : AlertBuffer
  pub sent : List (ℕ × PendingAlert)

abbrev pub stamped : ℕ → List PendingAlert → List (ℕ × PendingAlert) → List (ℕ × PendingAlert)
stamped now [] sent = sent
stamped now (e ∷ es) sent = (now, e) ∷ stamped now es sent

unfoldable pub step : ℕ → Event → History → History
step suppress_ms (raised alert now request_id) h = record h {
  buffer = (add alert now request_id h.buffer).0;
}
step suppress_ms (flushed now) h = record {
  buffer = (drain suppress_ms now h.buffer).0;
  sent = stamped now (drain suppress_ms now h.buffer).1 h.sent;
}

unfoldable pub run : ℕ → List Event → History → History
run suppress_ms [] h = h
run suppress_ms (e ∷ es) h = run suppress_ms es (step suppress_ms e h)

abbrev pub start : History
start = record {
  buffer = record { pending = []; suppressed_until = []; suppressed_counts = [] };
  sent = [];
}

-- How often an alert of a key is raised.
unfoldable pub raised_times : String → List Event → ℕ
raised_times k [] = 0
raised_times k (raised alert now request_id ∷ es) =
    (if same (alert_key alert) k then 1 else 0) + raised_times k es
raised_times k (flushed now ∷ es) = raised_times k es

abbrev pub weight : String → PendingAlert → ℕ
weight k e = if same (alert_key e.alert) k then e.count else 0

-- The sum of the counts of a key.
unfoldable pub tally : String → List PendingAlert → ℕ
tally k [] = 0
tally k (e ∷ es) = weight k e + tally k es

unfoldable pub tally_sent : String → List (ℕ × PendingAlert) → ℕ
tally_sent k [] = 0
tally_sent k ((now, e) ∷ sent) = weight k e + tally_sent k sent

-- An alert waits under its own key.
abbrev pub IsKeyed : List (String × PendingAlert) → Type 0
IsKeyed m = All (λ p. p.0 ≡ alert_key p.1.alert) m

pub IsKeyed-lookup :
    (k : String) (m : List (String × PendingAlert)) (e : PendingAlert)
    → IsKeyed m
    → lookup k m ≡ some e
    → alert_key e.alert ≡ k
unfolding lookup
IsKeyed-lookup k [] e h found = cc
IsKeyed-lookup k ((j, w) ∷ m) e (h, hs) found = ground (arith, h, IsKeyed-lookup k m e hs)

pub IsKeyed-insert :
    (k : String) (m : List (String × PendingAlert)) (e : PendingAlert)
    → IsKeyed m
    → k ≡ alert_key e.alert
    → IsKeyed (insert k e m)
unfolding insert
IsKeyed-insert k [] e h own = (own, tt)
IsKeyed-insert k ((j, w) ∷ m) e (h, hs) own = elim (Bool-cases (same j k)) [
  | inl here ↦ rw here (ground (arith, here, own), hs)
  | inr there ↦ rw there (h, IsKeyed-insert k m e hs own)
]

tally-insert_new :
    (k j : String) (e : PendingAlert) (m : List (String × PendingAlert))
    → lookup j m ≡ none
    → tally k (values (insert j e m)) ≡ tally k (values m) + weight k e
unfolding lookup insert values tally
tally-insert_new k j e [] missing = omega arith
tally-insert_new k j e ((i, w) ∷ m) missing = ground (arith, tally-insert_new k j e m)

tally-insert :
    (k j : String) (e old : PendingAlert) (m : List (String × PendingAlert))
    → lookup j m ≡ some old
    → tally k (values (insert j e m)) + weight k old ≡ tally k (values m) + weight k e
unfolding lookup insert values tally
tally-insert k j e old [] found = cc
tally-insert k j e old ((i, w) ∷ m) found = ground (arith, tally-insert k j e old m)

tally-stamped :
    (k : String) (now : ℕ) (es : List PendingAlert) (sent : List (ℕ × PendingAlert))
    → tally_sent k (stamped now es sent) ≡ tally k es + tally_sent k sent
unfolding tally tally_sent
tally-stamped k now [] sent = omega arith
tally-stamped k now (e ∷ es) sent = ground (arith, tally-stamped k now es sent)

-- All that was raised of a key: handed over, waiting, or held back.
abbrev pub accounted : String → History → ℕ
accounted k h =
    tally_sent k h.sent
    + (tally k (values h.buffer.pending) + or_zero (lookup k h.buffer.suppressed_counts))

weight-count_again :
    (k : String) (now : ℕ) (e : PendingAlert)
    → weight k (count_again now e) ≡ weight k e + (if same (alert_key e.alert) k then 1 else 0)
unfolding count_again
weight-count_again k now e = ground arith

suppress-accounted :
    (k j : String) (b : AlertBuffer)
    → tally k (values (suppress j b).pending) + or_zero (lookup k (suppress j b).suppressed_counts)
      ≡ (if same j k then 1 else 0)
        + (tally k (values b.pending) + or_zero (lookup k b.suppressed_counts))
unfolding suppress
suppress-accounted k j b =
    ground
      (arith, lookup-insert j k (or_zero (lookup j b.suppressed_counts) + 1) b.suppressed_counts)

enqueue-accounted :
    (k : String) (alert : Alert) (now : ℕ) (request_id : Option String) (b : AlertBuffer)
    → lookup (alert_key alert) b.pending ≡ none
    → tally k (values (enqueue (alert_key alert) alert now request_id b).pending)
        + or_zero (lookup k (enqueue (alert_key alert) alert now request_id b).suppressed_counts)
      ≡ (if same (alert_key alert) k then 1 else 0)
        + (tally k (values b.pending) + or_zero (lookup k b.suppressed_counts))
unfolding enqueue
enqueue-accounted k alert now request_id b free =
    let fresh : PendingAlert = record {
      alert = alert;
      count = 1 + or_zero (lookup (alert_key alert) b.suppressed_counts);
      first_at = now;
      last_at = now;
      request_id = request_id;
    } in
    ground (
      arith,
      tally-insert_new k (alert_key alert) fresh b.pending free,
      lookup-erase (alert_key alert) k b.suppressed_counts,
    )

add_key-accounted :
    (k : String) (alert : Alert) (now : ℕ) (request_id : Option String) (h : History)
    → IsKeyed h.buffer.pending
    → accounted k (record h { buffer = (add alert now request_id h.buffer).0 })
      ≡ (if same (alert_key alert) k then 1 else 0) + accounted k h
unfolding add add_key
add_key-accounted k alert now request_id h keyed =
    elim (Option-cases (lookup (alert_key alert) h.buffer.pending)) [
      | inr (old, waiting) ↦
          rw (waiting, add_key)
            (ground (
              arith,
              tally-insert k (alert_key alert) (count_again now old) old h.buffer.pending waiting,
              weight-count_again k now old,
              IsKeyed-lookup (alert_key alert) h.buffer.pending old keyed waiting,
            ))
      | inl free ↦
          elim (Bool-cases (is_before now (lookup (alert_key alert) h.buffer.suppressed_until))) [
            | inl held ↦
                rw (free, add_key, held)
                  (ground (arith, suppress-accounted k (alert_key alert) h.buffer))
            | inr open_now ↦
                rw (free, add_key, open_now)
                  (ground (arith, enqueue-accounted k alert now request_id h.buffer free))
          ]
    ]

count_again-key :
    (now : ℕ) (e : PendingAlert) {k : String}
    → alert_key e.alert ≡ k
    → k ≡ alert_key (count_again now e).alert
unfolding count_again
count_again-key now e own = sym own

drain-accounted :
    (k : String) (suppress_ms now : ℕ) (h : History)
    → accounted k (step suppress_ms (flushed now) h) ≡ accounted k h
unfolding step drain tally values
drain-accounted k suppress_ms now h =
    omega (arith, tally-stamped k now (values h.buffer.pending) h.sent)

pub add-IsKeyed :
    (alert : Alert) (now : ℕ) (request_id : Option String) (b : AlertBuffer)
    → IsKeyed b.pending
    → IsKeyed (add alert now request_id b).0.pending
unfolding add add_key enqueue suppress
add-IsKeyed alert now request_id b keyed =
    elim (Option-cases (lookup (alert_key alert) b.pending)) [
      | inr (old, waiting) ↦
          rw (waiting, add_key)
            (IsKeyed-insert (alert_key alert) b.pending (count_again now old) keyed (
              count_again-key now old
                (IsKeyed-lookup (alert_key alert) b.pending old keyed waiting)))
      | inl free ↦ elim (Bool-cases (is_before now (lookup (alert_key alert) b.suppressed_until))) [
        | inl held ↦ rw (free, add_key, held) keyed
        | inr open_now ↦
            rw (free, add_key, open_now) (IsKeyed-insert (alert_key alert) b.pending _ keyed refl)
      ]
    ]

run-accounted :
    (k : String) (suppress_ms : ℕ) (events : List Event) (h : History)
    → IsKeyed h.buffer.pending
    → accounted k (run suppress_ms events h) ≡ raised_times k events + accounted k h
unfolding run raised_times step drain
run-accounted k suppress_ms [] h keyed = omega arith
run-accounted k suppress_ms (raised alert now request_id ∷ es) h keyed =
    run-accounted k suppress_ms es (step suppress_ms (raised alert now request_id) h)
      (add-IsKeyed alert now request_id h.buffer keyed)
    ∙ omega (arith, add_key-accounted k alert now request_id h keyed)
run-accounted k suppress_ms (flushed now ∷ es) h keyed =
    run-accounted k suppress_ms es (step suppress_ms (flushed now) h) tt
    ∙ omega (arith, drain-accounted k suppress_ms now h)

-- The buffer loses no alert and hands none over twice: of every key, the counts of what it has handed
-- over to be sent, of what waits in it and of what it holds back add up to the number of times that the
-- alert was raised. What becomes of an alert that is handed over (no webhook, more entries than a
-- message has, a failed request) is not stated.
pub run-reported :
    (k : String) (suppress_ms : ℕ) (events : List Event)
    → accounted k (run suppress_ms events start) ≡ raised_times k events
unfolding tally_sent tally values lookup
run-reported k suppress_ms events = run-accounted k suppress_ms events start tt ∙ omega arith
