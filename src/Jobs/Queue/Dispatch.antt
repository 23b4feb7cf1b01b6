-- ===== src/Jobs/Queue/Dispatch.antt =====
-- A row of the outbox is published exactly when its message is in the queue.
use standin_app_server.Prelude.{
  ℕ, ◌+◌, ◌≡◌, refl, ap, sym, ◌∙◌, Bool, true, false, ◌&&◌, ◌||◌, List, [], ◌∷◌, ◌++◌, map, arith,
  if◌then◌else◌, String, none, some, length, Bool-cases, inl, inr,
}
use standin_app_server.Jobs.Rows.{OutboxRow, same, is_none}
use standin_app_server.Jobs.Queue.Oldest.{IsOldest, pending-IsOldest}
use standin_app_server.Jobs.Queue.{Dispatched, mark, pending, send_rows, dispatch_pending_jobs}

-- The rows before the first that the queue refuses.
abbrev pub taken : (String → Bool) → List OutboxRow → List OutboxRow
taken accepts [] = []
taken accepts (r ∷ rows) = if accepts r.job_id then r ∷ taken accepts rows else []

abbrev pub all_taken : (String → Bool) → List OutboxRow → Bool
all_taken accepts [] = true
all_taken accepts (r ∷ rows) = accepts r.job_id && all_taken accepts rows

abbrev pub is_among : String → List OutboxRow → Bool
is_among id [] = false
is_among id (r ∷ rows) = same id r.job_id || is_among id rows

-- A row after the messages of some rows were sent.
abbrev pub published : ℕ → List OutboxRow → OutboxRow → OutboxRow
published now rows o =
    if is_none o.published_at && is_among o.job_id rows
    then record o { published_at = some now; publish_attempts = o.publish_attempts + 1 }
    else o

abbrev pub ids : List OutboxRow → List String
ids rows = map (λ r. r.job_id) rows

-- What a dispatch of some rows leaves.
pub record IsDispatched (accepts : String → Bool) (now : ℕ) (rows : List OutboxRow) (sent : ℕ)
    (outbox : List OutboxRow) (queue : List String) (d : Dispatched) : Type 0 where
  pub taken_ids : d.queue ≡ queue ++ ids (taken accepts rows)
  pub marked : d.outbox ≡ map (published now (taken accepts rows)) outbox
  pub number : d.count ≡ (if all_taken accepts rows then some (sent + length rows) else none)

module _ {A : Type 0} where
  append_nil : (xs : List A) → xs ++ [] ≡ xs
  append_nil [] = refl
  append_nil (x ∷ xs) = rw (append_nil xs)

  append_one : (xs : List A) (a : A) (ys : List A) → (xs ++ (a ∷ [])) ++ ys ≡ xs ++ (a ∷ ys)
  append_one [] a ys = refl
  append_one (x ∷ xs) a ys = rw (append_one xs a ys)

published_none : (now : ℕ) (outbox : List OutboxRow) → map (published now []) outbox ≡ outbox
published_none now [] = refl
published_none now (o ∷ outbox) = ground (arith, published_none now outbox)

published-mark :
    (now : ℕ) (r : OutboxRow) (rows outbox : List OutboxRow)
    → map (published now rows) (map (mark now r.job_id) outbox)
      ≡ map (published now (r ∷ rows)) outbox
unfolding mark
published-mark now r rows [] = refl
published-mark now r rows (o ∷ outbox) = ground (arith, published-mark now r rows outbox)

send_rows-IsDispatched :
    (accepts : String → Bool) (now : ℕ) (rows : List OutboxRow) (sent : ℕ) (outbox : List OutboxRow)
    (queue : List String)
    → IsDispatched accepts now rows sent outbox queue (send_rows accepts now rows sent outbox queue)
unfolding send_rows
send_rows-IsDispatched accepts now [] sent outbox queue = record {
  taken_ids = sym (append_nil queue);
  marked = sym (published_none now outbox);
  number = ap some (omega arith);
}
send_rows-IsDispatched accepts now (r ∷ rows) sent outbox queue =
    elim (Bool-cases (accepts r.job_id)) [
      | inr refuses ↦ record {
        taken_ids = rw refuses (sym (append_nil queue));
        marked = rw refuses (sym (published_none now outbox));
        number = rw refuses;
      }
      | inl takes ↦
          let rest =
            send_rows-IsDispatched accepts now rows (sent + 1) (map (mark now r.job_id) outbox)
              (queue ++ (r.job_id ∷ [])) in
          record {
            taken_ids =
                rw takes (rest.taken_ids ∙ append_one queue r.job_id (ids (taken accepts rows)));
            marked = rw takes (rest.marked ∙ published-mark now r (taken accepts rows) outbox);
            number = rw takes (rest.number ∙ ground arith);
          }
    ]

-- A dispatch takes at most `limit` of the rows that were not published, the oldest first: the rows that
-- it takes and those that it leaves are together the unpublished rows, in ascending order of their
-- times, and rows are left only when `limit` were taken. It sends their messages in this order, up to
-- the first that the queue refuses; exactly the rows of the sent ones are then marked, all others are
-- as before, and the number is returned when none was refused.
pub dispatch_pending_jobs-IsDispatched :
    (accepts : String → Bool) (now limit : ℕ) (outbox : List OutboxRow) (queue : List String)
    → (rows : List OutboxRow) × IsOldest limit outbox rows
      × IsDispatched accepts now rows 0 outbox queue
          (dispatch_pending_jobs accepts now limit outbox queue)
unfolding dispatch_pending_jobs
dispatch_pending_jobs-IsDispatched accepts now limit outbox queue = (
  pending limit outbox,
  pending-IsOldest limit outbox,
  send_rows-IsDispatched accepts now (pending limit outbox) 0 outbox queue,
)
