-- ===== src/Alerts/Sends.antt =====
-- The times at which a buffer hands over alerts of one key to be sent, and when the key may be sent again.
use standin_app_server.Prelude.{
  ℕ, ◌+◌, ◌≤◌, ◌≡◌, refl, subst, false, List, [], ◌∷◌, arith, if◌then◌else◌, ltb, String, Option,
  none, some, same, lookup, insert, values, lookup-insert,
}
use standin_app_server.Alerts.{PendingAlert, alert_key, or_zero, is_before, hold_keys}
use standin_app_server.Alerts.Delivery.{Event, raised, flushed, stamped, IsKeyed}

-- The times at which a key was handed over to be sent, the latest first.
unfoldable pub sends : String → List (ℕ × PendingAlert) → List ℕ
sends k [] = []
sends k ((now, e) ∷ sent) =
    let rest = sends k sent in if same (alert_key e.alert) k then now ∷ rest else rest

abbrev pub IsSpaced : ℕ → List ℕ → Type 0
IsSpaced gap [] = Unit
IsSpaced gap (t ∷ []) = Unit
IsSpaced gap (t ∷ u ∷ ts) = (u + gap ≤ t) × IsSpaced gap (u ∷ ts)

abbrev pub time_of : Event → ℕ
time_of (raised alert now request_id) = now
time_of (flushed now) = now

-- The clock of the events, from a time on.
abbrev pub IsClocked : ℕ → List Event → Type 0
IsClocked from [] = Unit
IsClocked from (e ∷ es) = (from ≤ time_of e) × IsClocked (time_of e) es

-- How many of the waiting alerts have a key.
unfoldable pub copies : String → List PendingAlert → ℕ
copies k [] = 0
copies k (e ∷ es) = (if same (alert_key e.alert) k then 1 else 0) + copies k es

pub copies-insert :
    (k j : String) (e : PendingAlert) (m : List (String × PendingAlert))
    → IsKeyed m
    → j ≡ alert_key e.alert
    → copies k (values (insert j e m)) ≡ (
        if same j k
        then (elim (lookup j m) [ none ↦ 1 + copies k (values m) | some old ↦ copies k (values m) ])
        else copies k (values m))
unfolding copies lookup values insert
copies-insert k j e [] h own = ground (arith, own)
copies-insert k j e ((i, w) ∷ m) (h, hs) own = ground (arith, h, own, copies-insert k j e m hs own)

pub lookup-hold_keys :
    (k : String) (until : ℕ) (es : List PendingAlert) (held : List (String × ℕ))
    → lookup k (hold_keys until es held)
      ≡ (if ltb 0 (copies k es) then some until else lookup k held)
unfolding copies hold_keys
lookup-hold_keys k until [] held = refl
lookup-hold_keys k until (e ∷ es) held = ground (
  arith,
  lookup-hold_keys k until es (insert (alert_key e.alert) until held),
  lookup-insert (alert_key e.alert) k until held,
)

pub sends-stamped_none :
    (k : String) (now : ℕ) (es : List PendingAlert) (sent : List (ℕ × PendingAlert))
    → copies k es ≡ 0
    → sends k (stamped now es sent) ≡ sends k sent
unfolding sends copies
sends-stamped_none k now [] sent h = refl
sends-stamped_none k now (e ∷ es) sent h = ground (arith, sends-stamped_none k now es sent)

pub sends-stamped_one :
    (k : String) (now : ℕ) (es : List PendingAlert) (sent : List (ℕ × PendingAlert))
    → copies k es ≡ 1
    → sends k (stamped now es sent) ≡ now ∷ sends k sent
unfolding sends copies
sends-stamped_one k now [] sent h = absurd (omega arith)
sends-stamped_one k now (e ∷ es) sent h =
    ground (arith, sends-stamped_none k now es sent, sends-stamped_one k now es sent)

-- When a key may be sent again after its sends so far: now, if it waits; else when it is let in.
abbrev pub Free : ℕ → Option PendingAlert → Option ℕ → ℕ → List ℕ → Type 0
Free gap o until clock [] = Unit
Free gap (some e) until clock (t ∷ ts) = t + gap ≤ clock
Free gap none until clock (t ∷ ts) = t + gap ≤ or_zero until

pub Free-at :
    (gap : ℕ) (o o' : Option PendingAlert) (until : Option ℕ) (clock : ℕ) (ts : List ℕ)
    → o ≡ o'
    → Free gap o until clock ts
    → Free gap o' until clock ts
Free-at gap o o' until clock ts e = subst (λ x. Free gap x until clock ts) e

pub Free-later :
    (gap : ℕ) (o : Option PendingAlert) (until : Option ℕ) (clock now : ℕ) (ts : List ℕ)
    → clock ≤ now
    → Free gap o until clock ts
    → Free gap o until now ts
Free-later gap o until clock now [] h f = tt
Free-later gap none until clock now (t ∷ ts) h f = f
Free-later gap (some e) until clock now (t ∷ ts) h f = omega arith

pub Free-again :
    (gap : ℕ) (e e' : PendingAlert) (until : Option ℕ) (clock : ℕ) (ts : List ℕ)
    → Free gap (some e) until clock ts
    → Free gap (some e') until clock ts
Free-again gap e e' until clock [] f = tt
Free-again gap e e' until clock (t ∷ ts) f = f

pub Free-open :
    (gap : ℕ) (e : PendingAlert) (until until' : Option ℕ) (clock now : ℕ) (ts : List ℕ)
    → is_before now until ≡ false
    → Free gap none until clock ts
    → Free gap (some e) until' now ts
Free-open gap e until until' clock now [] h f = tt
Free-open gap e none until' clock now (t ∷ ts) h f = omega arith
Free-open gap e (some u) until' clock now (t ∷ ts) h f = ground arith

pub Free-flush :
    (gap : ℕ) (e : PendingAlert) (until : Option ℕ) (clock now : ℕ) (ts : List ℕ)
    → clock ≤ now
    → Free gap (some e) until clock ts
    → IsSpaced gap ts
    → IsSpaced gap (now ∷ ts)
Free-flush gap e until clock now [] h f s = tt
Free-flush gap e until clock now (t ∷ ts) h f s = (omega arith, s)

abbrev pub one_if : Option PendingAlert → ℕ
one_if none = 0
one_if (some e) = 1
