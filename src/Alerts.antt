-- ===== src/Alerts.antt =====
-- notify.ts: the buffer that batches and folds the alerts, and the messages of a flush. The network is
-- left out: `flush` gives the messages that are sent. The clock is an argument.
pub mod Delivery
pub mod Sends
pub mod Spacing
pub mod Timer
mod Tests
use standin_app_server.Prelude.{
  ℕ, suc, ◌+◌, ◌≡◌, Bool, true, false, not, ◌&&◌, List, [], ◌∷◌, ◌++◌, if◌then◌else◌, ite, ltb,
  ◌==◌, String, String-discrete, Option, none, some, take, drop, length, same, lookup, insert,
  erase, values,
}
use Prim.Native.String.{◌++◌ as string_append}

pub data Severity : Type 0 where
  p1 p2 p3 : Severity

unfoldable pub Severity-discrete : Discrete Severity
Severity-discrete = hlevel

-- `context` is the text of the further information.
pub record Alert : Type 0 where
  pub severity : Severity
  pub code : String
  pub message : String
  pub key : Option String
  pub context : String

pub record PendingAlert : Type 0 where
  pub alert : Alert
  pub count : ℕ
  pub first_at : ℕ
  pub last_at : ℕ
  pub request_id : Option String

abbrev severity_text : Severity → String
severity_text p1 = "P1"
severity_text p2 = "P2"
severity_text p3 = "P3"

abbrev or_key : Option String → String → String
or_key none k = k
or_key (some k) other = k

unfoldable pub alert_key : Alert → String
alert_key alert =
    or_key alert.key (string_append (severity_text alert.severity) (string_append ":" alert.code))

-- The fields of `AlertBuffer`; `suppressMs` is an argument of `drain`.
pub record AlertBuffer : Type 0 where
  pub pending : List (String × PendingAlert)
  pub suppressed_until : List (String × ℕ)
  pub suppressed_counts : List (String × ℕ)

abbrev pub or_zero : Option ℕ → ℕ
or_zero none = 0
or_zero (some n) = n

-- `until !== undefined && now < until`
abbrev pub is_before : ℕ → Option ℕ → Bool
is_before now none = false
is_before now (some until) = ltb now until

unfoldable pub count_again : ℕ → PendingAlert → PendingAlert
count_again now existing = record existing { count = existing.count + 1; last_at = now }

unfoldable pub enqueue : String → Alert → ℕ → Option String → AlertBuffer → AlertBuffer
enqueue key alert now request_id b = record {
  pending =
      insert key
        (record {
          alert = alert;
          count = 1 + or_zero (lookup key b.suppressed_counts);
          first_at = now;
          last_at = now;
          request_id = request_id;
        })
        b.pending;
  suppressed_until = erase key b.suppressed_until;
  suppressed_counts = erase key b.suppressed_counts;
}

unfoldable pub suppress : String → AlertBuffer → AlertBuffer
suppress key b = record b {
  suppressed_counts = insert key (or_zero (lookup key b.suppressed_counts) + 1) b.suppressed_counts;
}

unfoldable pub add_key : String → Alert → ℕ → Option String → AlertBuffer → AlertBuffer × Bool
add_key key alert now request_id b = elim (lookup key b.pending) [
  | some existing ↦ (record b { pending = insert key (count_again now existing) b.pending }, false)
  | none ↦
      if is_before now (lookup key b.suppressed_until)
      then (suppress key b, false)
      else (enqueue key alert now request_id b, true)
]

-- Whether a flush is to be scheduled stands beside the buffer.
unfoldable pub add : Alert → ℕ → Option String → AlertBuffer → AlertBuffer × Bool
add alert now request_id b = add_key (alert_key alert) alert now request_id b

unfoldable pub hold_keys : ℕ → List PendingAlert → List (String × ℕ) → List (String × ℕ)
hold_keys until [] held = held
hold_keys until (e ∷ es) held = hold_keys until es (insert (alert_key e.alert) until held)

unfoldable pub drain : ℕ → ℕ → AlertBuffer → AlertBuffer × List PendingAlert
drain suppress_ms now b =
    let entries = values b.pending in
    (
      record b {
        pending = [];
        suppressed_until = hold_keys (now + suppress_ms) entries b.suppressed_until;
      },
      entries,
    )

pub record Webhooks : Type 0 where
  pub alert : String
  pub warn : String
  pub ops : String

-- `a || b`
abbrev or_text : String → String → String
or_text a b = if same a "" then b else a

unfoldable pub webhook_for : Severity → Webhooks → String
webhook_for p1 w = or_text (or_text w.alert w.warn) w.ops
webhook_for p2 w = or_text (or_text w.warn w.alert) w.ops
webhook_for p3 w = or_text (or_text w.ops w.warn) w.alert

-- What `send` posts: the alerts that are shown in full, and those that the last line counts.
pub record Message : Type 0 where
  pub severity : Severity
  pub webhook : String
  pub shown : List PendingAlert
  pub hidden : List PendingAlert

unfoldable pub group : Severity → List PendingAlert → List PendingAlert
group s [] = []
group s (e ∷ es) =
    let rest = group s es in ite (Severity-discrete e.alert.severity s) (e ∷ rest) rest

unfoldable pub send : Webhooks → ℕ → Severity → List PendingAlert → List Message
send w most s [] = []
send w most s (e ∷ es) =
    if same (webhook_for s w) ""
    then []
    else record {
      severity = s;
      webhook = webhook_for s w;
      shown = take most (e ∷ es);
      hidden = drop (length (take most (e ∷ es))) (e ∷ es);
    }
      ∷ []

unfoldable pub send_all : Webhooks → ℕ → List PendingAlert → List Message
send_all w most entries =
    send w most p1 (group p1 entries)
    ++ (send w most p2 (group p2 entries) ++ send w most p3 (group p3 entries))

unfoldable pub flush : Webhooks → ℕ → ℕ → ℕ → AlertBuffer → AlertBuffer × List Message
flush w most suppress_ms now b =
    let (b', entries) = drain suppress_ms now b in (b', send_all w most entries)
