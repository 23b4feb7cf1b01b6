-- ===== src/Jobs.antt =====
-- Analysis jobs: jobs/store.ts, jobs/history.ts, jobs/runner.ts, jobs/queue.ts and worker.ts over the
-- tables of db.ts. Each statement is a function on the tables; a transaction is a step that either
-- returns new tables or throws and leaves the old ones.
pub mod Rows
pub mod Tables
pub mod Create
pub mod Lifecycle
pub mod Records
pub mod History
pub mod Queue
pub mod Selections
pub mod OutputScopes
pub mod Retention
pub mod Worker
pub mod Concurrency
pub mod Samples
mod Tests
