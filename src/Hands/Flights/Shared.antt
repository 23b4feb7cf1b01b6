-- ===== src/Hands/Flights/Shared.antt =====
-- Any sequence of calls and ends of checks.
use standin_app_server.Prelude.{
  ℕ, zero, suc, ◌+◌, ◌<◌, ◌≡◌, ◌⊎◌, inl, inr, refl, ap, subst, List, [], ◌∷◌, arith, ltb, Option,
  none, some, Tried, done, thrown, replicate, length, length-replicate, All, All-weaken,
  Option-cases, Bool-cases,
}
use standin_app_server.Hands.{HandError}
use standin_app_server.Hands.Catalog.{HandCatalog}
use standin_app_server.Hands.Service.{Cached, fresh_catalog, keep_for}
use standin_app_server.Hands.Flights.{Flight, Event, asked, checked, join_check, ask, end_check}

-- A flight, the answers so far with their times, and the checks that ended; the latest first.
pub record History : Type 0 where
  pub flight : Flight
  pub answers : List (ℕ × Tried HandError HandCatalog)
  pub checks : List (ℕ × Tried HandError HandCatalog)

abbrev stamped :
    ℕ
    → List (Tried HandError HandCatalog)
    → List (ℕ × Tried HandError HandCatalog)
    → List (ℕ × Tried HandError HandCatalog)
stamped now [] earlier = earlier
stamped now (r ∷ rs) earlier = (now, r) ∷ stamped now rs earlier

unfoldable pub step : Event → History → History
step (asked now) h = record h {
  flight = (ask now h.flight).0;
  answers = stamped now (ask now h.flight).1 h.answers;
}
step (checked now result) h = record {
  flight = (end_check now result h.flight).0;
  answers = stamped now (end_check now result h.flight).1 h.answers;
  checks = (now, result) ∷ h.checks;
}

unfoldable pub run : List Event → History → History
run [] h = h
run (e ∷ es) h = run es (step e h)

abbrev pub start : History
start = record { flight = record { ready = none; pending = none }; answers = []; checks = [] }

unfoldable pub calls : List Event → ℕ
calls [] = 0
calls (asked now ∷ es) = suc (calls es)
calls (checked now result ∷ es) = calls es

abbrev pub waiting : Option ℕ → ℕ
waiting none = 0
waiting (some n) = n

-- A result of one of the checks, that ended less than five seconds before a time.
abbrev pub IsCurrent :
    ℕ → Tried HandError HandCatalog → List (ℕ × Tried HandError HandCatalog) → Type 0
IsCurrent now r [] = ⊥
IsCurrent now r ((at, result) ∷ checks) =
    ((now < at + 5000) × (result ≡ r)) ⊎ IsCurrent now r checks

length-stamped :
    (now : ℕ) (rs : List (Tried HandError HandCatalog))
    (earlier : List (ℕ × Tried HandError HandCatalog))
    → length (stamped now rs earlier) ≡ length rs + length earlier
length-stamped now [] earlier = omega arith
length-stamped now (r ∷ rs) earlier = omega (arith, length-stamped now rs earlier)

step-answered :
    (e : Event) (h : History)
    → length (step e h).answers + waiting (step e h).flight.pending
      ≡ length h.answers + waiting h.flight.pending + calls (e ∷ [])
unfolding step calls ask end_check join_check
step-answered (asked now) h = elim (Option-cases (fresh_catalog now h.flight.ready)) [
  | inl stale ↦ elim (Option-cases h.flight.pending) [
    | inl idle ↦ rw (ask, stale, idle) (omega arith)
    | inr (n, runs) ↦ rw (ask, stale, runs) (omega arith)
  ]
  | inr (c, fresh) ↦ rw (ask, fresh) (omega arith)
]
step-answered (checked now result) h = elim (Option-cases h.flight.pending) [
  | inl idle ↦ rw (end_check, idle) (omega (arith, ap waiting idle))
  | inr (n, runs) ↦
      rw (end_check, runs)
        (omega
          (arith, length-stamped now (replicate n result) h.answers, length-replicate n result))
]

calls-cons : (e : Event) (es : List Event) → calls (e ∷ es) ≡ calls (e ∷ []) + calls es
unfolding calls
calls-cons (asked now) es = omega arith
calls-cons (checked now result) es = omega arith

run-answered :
    (es : List Event) (h : History)
    → length (run es h).answers + waiting (run es h).flight.pending
      ≡ length h.answers + waiting h.flight.pending + calls es
unfolding run calls
run-answered [] h = omega arith
run-answered (e ∷ es) h =
    omega (arith, run-answered es (step e h), step-answered e h, calls-cons e es)

-- The cached catalog is of a check, for five seconds after its end.
abbrev Backs : Cached → List (ℕ × Tried HandError HandCatalog) → Type 0
Backs c [] = ⊥
Backs c ((at, result) ∷ checks) =
    ((c.until ≡ at + 5000) × (result ≡ done c.catalog)) ⊎ Backs c checks

abbrev IsBacked : Option Cached → List (ℕ × Tried HandError HandCatalog) → Type 0
IsBacked none checks = Unit
IsBacked (some c) checks = Backs c checks

Backs-IsCurrent :
    (now : ℕ) (c : Cached) (checks : List (ℕ × Tried HandError HandCatalog))
    → now < c.until
    → Backs c checks
    → IsCurrent now (done c.catalog) checks
Backs-IsCurrent now c [] h b = absurd b
Backs-IsCurrent now c ((at, result) ∷ checks) h (inl (e, same)) = inl (omega arith, same)
Backs-IsCurrent now c ((at, result) ∷ checks) h (inr b) = inr (Backs-IsCurrent now c checks h b)

abbrev AllCurrent :
    List (ℕ × Tried HandError HandCatalog) → List (ℕ × Tried HandError HandCatalog) → Type 0
AllCurrent answers checks = All (λ a. IsCurrent a.0 a.1 checks) answers

stamped-AllCurrent :
    (now : ℕ) (n : ℕ) (r : Tried HandError HandCatalog)
    (answers checks : List (ℕ × Tried HandError HandCatalog))
    → IsCurrent now r checks
    → AllCurrent answers checks
    → AllCurrent (stamped now (replicate n r) answers) checks
stamped-AllCurrent now zero r answers checks c h = h
stamped-AllCurrent now (suc n) r answers checks c h =
    (c, stamped-AllCurrent now n r answers checks c h)

fresh-IsCurrent :
    (now : ℕ) (ready : Option Cached) (catalog : HandCatalog)
    (checks : List (ℕ × Tried HandError HandCatalog))
    → fresh_catalog now ready ≡ some catalog
    → IsBacked ready checks
    → IsCurrent now (done catalog) checks
unfolding fresh_catalog
fresh-IsCurrent now none catalog checks e b = cc
fresh-IsCurrent now (some c) catalog checks e b = elim (Bool-cases (ltb now c.until)) [
  | inl young ↦
      subst (λ k. IsCurrent now (done k) checks) (ground (arith, young, e))
        (Backs-IsCurrent now c checks (ground (arith, young)) b)
  | inr old ↦ absurd (ground (arith, old, e))
]

record IsSound (h : History) : Type 0 where
  backed : IsBacked h.flight.ready h.checks
  current : AllCurrent h.answers h.checks

keep_for-IsBacked :
    (now : ℕ) (result : Tried HandError HandCatalog) (ready : Option Cached)
    (checks : List (ℕ × Tried HandError HandCatalog))
    → IsBacked ready checks
    → IsBacked (keep_for (now + 5000) result ready) ((now, result) ∷ checks)
unfolding keep_for
keep_for-IsBacked now (done catalog) ready checks b = inl (refl, refl)
keep_for-IsBacked now (thrown e) none checks b = tt
keep_for-IsBacked now (thrown e) (some c) checks b = inr b

longer-IsBacked :
    (a : ℕ × Tried HandError HandCatalog) (ready : Option Cached)
    (checks : List (ℕ × Tried HandError HandCatalog))
    → IsBacked ready checks
    → IsBacked ready (a ∷ checks)
longer-IsBacked a none checks b = tt
longer-IsBacked a (some c) checks b = inr b

step-IsSound : (e : Event) (h : History) → IsSound h → IsSound (step e h)
unfolding step ask end_check
step-IsSound (asked now) h s = elim (Option-cases (fresh_catalog now h.flight.ready)) [
  | inl stale ↦ rw (ask, stale) (record { backed = s.backed; current = s.current })
  | inr (c, fresh) ↦
      rw (ask, fresh)
        (record {
          backed = s.backed;
          current = (fresh-IsCurrent now h.flight.ready c h.checks fresh s.backed, s.current);
        })
]
step-IsSound (checked now result) h s =
    let older : AllCurrent h.answers ((now, result) ∷ h.checks) =
      All-weaken (λ a. IsCurrent a.0 a.1 h.checks)
        (λ a. IsCurrent a.0 a.1 ((now, result) ∷ h.checks)) h.answers (λ a c. inr c) s.current in
    elim (Option-cases h.flight.pending) [
      | inl idle ↦
          rw (end_check, idle)
            (record {
              backed = longer-IsBacked (now, result) h.flight.ready h.checks s.backed;
              current = older;
            })
      | inr (n, runs) ↦
          rw (end_check, runs)
            (record {
              backed = keep_for-IsBacked now result h.flight.ready h.checks s.backed;
              current =
                  stamped-AllCurrent now n result h.answers ((now, result) ∷ h.checks)
                    (inl (omega arith, refl)) older;
            })
    ]

run-IsSound : (es : List Event) (h : History) → IsSound h → IsSound (run es h)
unfolding run
run-IsSound [] h s = s
run-IsSound (e ∷ es) h s = run-IsSound es (step e h) (step-IsSound e h s)

-- Callers that share a check: of any sequence of calls and ends of checks, every call is answered once
-- or waits for the check that runs, and every answer is the result of a check that ended less than
-- five seconds before.
pub run-answers :
    (es : List Event)
    → (length (run es start).answers + waiting (run es start).flight.pending ≡ calls es)
      × All (λ a. IsCurrent a.0 a.1 (run es start).checks) (run es start).answers
run-answers es = (
  omega (arith, run-answered es start),
  (run-IsSound es start (record { backed = tt; current = tt })).current,
)
