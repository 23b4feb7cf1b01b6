-- ===== src/Jobs/Queue.antt =====
-- jobs/queue.ts: the dispatch of the outbox. The queue is the list of the job ids that it has taken;
-- whether it takes a message is an argument.
pub mod Messages
pub mod Oldest
pub mod Dispatch
use standin_app_server.Prelude.{
  ℕ, suc, ◌+◌, ◌≡◌, refl, Bool, true, false, not, ◌&&◌, ◌||◌, List, [], ◌∷◌, ◌++◌, map, arith,
  if◌then◌else◌, ltb, leb, ◌==◌, String, Option, none, some, take, Text, length, codes,
}
use standin_app_server.Jobs.Rows.{OutboxRow, same, is_none}
use standin_app_server.Jobs.History.Order.{select, sort_desc}

pub data SendError : Type 0 where
  send_failed : SendError

-- What a dispatch leaves: the outbox, the queue, and the number that it returns, or the error.
pub record Dispatched : Type 0 where
  pub outbox : List OutboxRow
  pub queue : List String
  pub count : Option ℕ

-- UPDATE job_outbox ... WHERE job_id = $1 AND published_at IS NULL
unfoldable pub mark : ℕ → String → OutboxRow → OutboxRow
mark now id o =
    if same o.job_id id && is_none o.published_at
    then record o { published_at = some now; publish_attempts = o.publish_attempts + 1 }
    else o

-- WHERE published_at IS NULL ORDER BY created_at LIMIT $1
unfoldable pub pending : ℕ → List OutboxRow → List OutboxRow
pending limit outbox =
    take limit (
      sort_desc (λ a b. ltb b.created_at a.created_at)
        (select (λ o. is_none o.published_at) outbox))

unfoldable pub send_rows :
    (String → Bool) → ℕ → List OutboxRow → ℕ → List OutboxRow → List String → Dispatched
send_rows accepts now [] sent outbox queue = record {
  outbox = outbox;
  queue = queue;
  count = some sent;
}
send_rows accepts now (r ∷ rows) sent outbox queue =
    let rest =
      send_rows accepts now rows (sent + 1) (map (mark now r.job_id) outbox)
        (queue ++ (r.job_id ∷ [])) in
    if accepts r.job_id then rest else record { outbox = outbox; queue = queue; count = none }

unfoldable pub dispatch_pending_jobs :
    (String → Bool) → ℕ → ℕ → List OutboxRow → List String → Dispatched
dispatch_pending_jobs accepts now limit outbox queue =
    send_rows accepts now (pending limit outbox) 0 outbox queue
