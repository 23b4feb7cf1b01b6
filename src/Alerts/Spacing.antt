-- ===== src/Alerts/Spacing.antt =====
-- How close together a buffer sends alerts of one key, while the clock does not run backwards.
use standin_app_server.Prelude.{
  ℕ, ◌+◌, ◌≤◌, ◌≡◌, inl, inr, refl, sym, false, List, [], ◌∷◌, arith, String, Option, none, some,
  Bool-cases, Option-cases, same, lookup, insert, values, lookup-insert, lookup-erase,
}
use standin_app_server.Alerts.{
  Alert, PendingAlert, alert_key, or_zero, is_before, count_again, enqueue, suppress, add_key, add,
  drain,
}
use standin_app_server.Alerts.Delivery.{
  Event, raised, flushed, History, step, run, start, IsKeyed, IsKeyed-lookup, IsKeyed-insert,
}
use standin_app_server.Alerts.Sends.{
  sends, copies, IsSpaced, IsClocked, copies-insert, lookup-hold_keys, sends-stamped_none,
  sends-stamped_one, Free, Free-at, Free-later, Free-again, Free-open, Free-flush, one_if,
}

record IsKept (k : String) (gap clock : ℕ) (h : History) : Type 0 where
  keyed : IsKeyed h.buffer.pending
  single : copies k (values h.buffer.pending) ≡ one_if (lookup k h.buffer.pending)
  spaced : IsSpaced gap (sends k h.sent)
  free :
      Free gap
        (lookup k h.buffer.pending)
        (lookup k h.buffer.suppressed_until)
        clock
        (sends k h.sent)

copies-insert_one :
    (k j : String) (e : PendingAlert) (m : List (String × PendingAlert))
    → IsKeyed m
    → j ≡ alert_key e.alert
    → copies k (values m) ≡ one_if (lookup k m)
    → copies k (values (insert j e m)) ≡ one_if (lookup k (insert j e m))
copies-insert_one k j e m keyed own single =
    ground (arith, copies-insert k j e m keyed own, lookup-insert j k e m)

module _ (k : String) (gap : ℕ) (alert : Alert) (clock now : ℕ) (request_id : Option String)
    (h : History) (later : clock ≤ now) (kept : IsKept k gap clock h) where
  open_afterwards :
      Free gap (lookup k h.buffer.pending) (lookup k h.buffer.suppressed_until) now (sends k h.sent)
  open_afterwards = Free-later gap _ _ clock now (sends k h.sent) later kept.free

  abbrev fresh : PendingAlert
  fresh = record {
    alert = alert;
    count = 1 + or_zero (lookup (alert_key alert) h.buffer.suppressed_counts);
    first_at = now;
    last_at = now;
    request_id = request_id;
  }

  again-IsKept :
      (old : PendingAlert)
      → lookup (alert_key alert) h.buffer.pending ≡ some old
      → IsKept k gap now (record h {
        buffer = record h.buffer {
          pending = insert (alert_key alert) (count_again now old) h.buffer.pending;
        };
      })
  unfolding count_again
  again-IsKept old waiting =
      let e = count_again now old in
      record {
        keyed =
            IsKeyed-insert (alert_key alert) h.buffer.pending e kept.keyed
              (sym (IsKeyed-lookup (alert_key alert) h.buffer.pending old kept.keyed waiting));
        single =
            copies-insert_one k (alert_key alert) e h.buffer.pending kept.keyed
              (sym (IsKeyed-lookup (alert_key alert) h.buffer.pending old kept.keyed waiting))
              kept.single;
        spaced = kept.spaced;
        free =
            rw (lookup-insert (alert_key alert) k e h.buffer.pending)
              (elim (Bool-cases (same (alert_key alert) k)) [
                | inl here ↦ rw here (
                    Free-again gap old e (lookup k h.buffer.suppressed_until) now (sends k h.sent) (
                      Free-at gap (lookup k h.buffer.pending) (some old) _ now _
                        (ground (arith, here, waiting)) open_afterwards))
                | inr there ↦ rw there open_afterwards
              ]);
      }

  enqueue-IsKept :
      lookup (alert_key alert) h.buffer.pending ≡ none
      → is_before now (lookup (alert_key alert) h.buffer.suppressed_until) ≡ false
      → IsKept k gap now
          (record h { buffer = enqueue (alert_key alert) alert now request_id h.buffer })
  unfolding enqueue
  enqueue-IsKept free_key open_now = record {
    keyed = IsKeyed-insert (alert_key alert) h.buffer.pending _ kept.keyed refl;
    single = copies-insert_one k (alert_key alert) _ h.buffer.pending kept.keyed refl kept.single;
    spaced = kept.spaced;
    free =
        rw
          (
            lookup-insert (alert_key alert) k fresh h.buffer.pending,
            lookup-erase (alert_key alert) k h.buffer.suppressed_until,
          )
          (elim (Bool-cases (same (alert_key alert) k)) [
            | inl here ↦ rw here (
                Free-open gap fresh (lookup k h.buffer.suppressed_until) none clock now _
                  (ground (arith, here, open_now))
                  (Free-at gap (lookup k h.buffer.pending) none (lookup k h.buffer.suppressed_until)
                    clock _ (ground (arith, here, free_key)) kept.free))
            | inr there ↦ rw there open_afterwards
          ]);
  }

flushed-IsKept :
    (k : String) (gap clock now : ℕ) (h : History)
    → clock ≤ now
    → IsKept k gap clock h
    → IsKept k gap now (step gap (flushed now) h)
unfolding step drain values copies lookup
flushed-IsKept k gap clock now h later kept = elim (Option-cases (lookup k h.buffer.pending)) [
  | inl free ↦
      let none_left : copies k (values h.buffer.pending) ≡ 0 = ground (arith, kept.single, free) in
      record {
        keyed = tt;
        single = refl;
        spaced =
            rw (sends-stamped_none k now (values h.buffer.pending) h.sent none_left) kept.spaced;
        free =
            rw
              (
                sends-stamped_none k now (values h.buffer.pending) h.sent none_left,
                lookup-hold_keys k (now + gap) (values h.buffer.pending) h.buffer.suppressed_until,
                none_left,
              )
              (Free-later gap none (lookup k h.buffer.suppressed_until) clock now (sends k h.sent)
                later (Free-at gap (lookup k h.buffer.pending) none _ clock _ free kept.free));
      }
  | inr (e, waiting) ↦
      let one_left : copies k (values h.buffer.pending) ≡ 1 =
        ground (arith, kept.single, waiting) in
      record {
        keyed = tt;
        single = refl;
        spaced = rw (sends-stamped_one k now (values h.buffer.pending) h.sent one_left) (
            Free-flush gap e (lookup k h.buffer.suppressed_until) clock now (sends k h.sent) later
              (Free-at gap (lookup k h.buffer.pending) (some e) _ clock _ waiting kept.free)
              kept.spaced);
        free =
            rw
              (
                sends-stamped_one k now (values h.buffer.pending) h.sent one_left,
                lookup-hold_keys k (now + gap) (values h.buffer.pending) h.buffer.suppressed_until,
                one_left,
              )
              (omega arith);
      }
]

raised-IsKept :
    (k : String) (gap clock now : ℕ) (alert : Alert) (request_id : Option String) (h : History)
    → clock ≤ now
    → IsKept k gap clock h
    → IsKept k gap now (step gap (raised alert now request_id) h)
unfolding step add add_key suppress
raised-IsKept k gap clock now alert request_id h later kept =
    elim (Option-cases (lookup (alert_key alert) h.buffer.pending)) [
      | inr (old, waiting) ↦
          rw (add_key, waiting)
            (again-IsKept k gap alert clock now request_id h later kept old waiting)
      | inl free ↦
          elim (Bool-cases (is_before now (lookup (alert_key alert) h.buffer.suppressed_until))) [
            | inl held ↦
                rw (add_key, free, held)
                  (record {
                    keyed = kept.keyed;
                    single = kept.single;
                    spaced = kept.spaced;
                    free = open_afterwards k gap alert clock now request_id h later kept;
                  })
            | inr open_now ↦
                rw (add_key, free, open_now)
                  (enqueue-IsKept k gap alert clock now request_id h later kept free open_now)
          ]
    ]

run-IsKept :
    (k : String) (gap clock : ℕ) (events : List Event) (h : History)
    → IsClocked clock events
    → IsKept k gap clock h
    → IsSpaced gap (sends k (run gap events h).sent)
unfolding run
run-IsKept k gap clock [] h c kept = kept.spaced
run-IsKept k gap clock (raised alert now request_id ∷ es) h (c, cs) kept =
    run-IsKept k gap now es _ cs (raised-IsKept k gap clock now alert request_id h c kept)
run-IsKept k gap clock (flushed now ∷ es) h (c, cs) kept =
    run-IsKept k gap now es _ cs (flushed-IsKept k gap clock now h c kept)

-- While the clock does not run backwards, the flushes that send an alert of the same key are at least
-- the time of suppression apart; where that time is positive, no flush sends a key twice.
pub run-IsSpaced :
    (k : String) (gap clock : ℕ) (events : List Event)
    → IsClocked clock events
    → IsSpaced gap (sends k (run gap events start).sent)
unfolding sends copies values lookup
run-IsSpaced k gap clock events c =
    run-IsKept k gap clock events start c
      (record { keyed = tt; single = refl; spaced = tt; free = tt })
