-- ===== src/Lib.antt =====
-- A verification library for the app server: the backend of a desktop application that sends drawings
-- for pose analysis. It stands beside the TypeScript in `src/`; the paths below are relative to it.
--
-- The server takes an image (jobs/routes.ts), counts the request against usage limits and creates a job
-- in one transaction (jobs/store.ts), stores the image, hands the job to a worker over an outbox and a
-- queue, and keeps results, selections and history in Postgres. Limits are rows of usage_counters, keyed
-- by windows of Korean time (limits/). What a client does to its jobs later goes through statements
-- whose WHERE clauses carry the ownership and the state machine of a job. For each person of a finished
-- job the user chooses a body (body-selection/) and hands (hands/); such choices carry a revision and an
-- id, so that a repetition is told from a conflict. A consent (installations/) decides what is reviewed.
--
--   Prelude      shared names: native numbers, Boolean tests, lists, texts as lists of character codes
--   Limits       Calendar (the language's dates), Policy (limits/policy.ts), Counters (limits/store.ts),
--                Flags (limits/flags.ts)
--   Clients      Address, Forwarded, Prefix (clientIp.ts), Burst (limits/middleware.ts)
--   Images       imageHeader.ts
--   Scopes       output-scope/model.ts
--   Alerts       notify.ts, with Timer (the next flush), Delivery and Spacing (what is handed over, and when)
--   Hands        the catalog of hands, a person's selection, the check of the servers, and Flights (the
--                check that concurrent callers share): hands/model.ts, store.ts, service.ts
--   Bodies       Shape (body-selection/shape.ts), Children (childPolicy.ts), Model and Choice (model.ts),
--                Tables, Persons, Preferences and Selections (store.ts), Reached (states after requests)
--   Consents     installations/qualityConsent.ts
--   Tokens       auth/tokens.ts, auth/oauthCodes.ts
--   Jobs         Rows and Tables (the tables of db.ts), Create and Lifecycle (jobs/store.ts), Concurrency
--                (histories of calls), Records (what an analysis leaves), History (jobs/history.ts and its
--                queries), Selections (what a user confirms: jobs/routes.ts and analytics/store.ts),
--                OutputScopes (output-scope/store.ts), Retention (retention.ts), Queue (jobs/queue.ts),
--                Worker (jobs/runner.ts, worker.ts)
--
-- A statement of SQL is a function on lists of rows, with the WHERE clause as a Boolean test; the rows
-- of a table keep the code's columns, and columns that no statement reads are one text. `transaction`
-- returns the new tables, or the old ones when its body throws. Each function takes the times that the
-- code reads as arguments, in milliseconds (in Tokens, seconds); the columns hold `toISOString()` texts
-- of them, whose order is theirs. Subtraction stops at 0: a cutoff before 1970 is 1970.
--
-- Fuel: `year_from` counts down the years of a day, of 365 days at least, with one round for each 365
-- days; `decimal_from` has one round more than the number; `jpeg_scan` has one round more than the file
-- has bytes, and each round moves forward; `read_pages` has one round for each request of a client.
--
-- The controls of bodies are integers in units of 10^-12, computed exactly, in place of binary fractions,
-- whose rounding is not represented.
-- Bodies has a state of its own, with the columns that body-selection/store.ts reads; in Jobs the policy
-- of an installation and the first body of a person are arguments.
--
-- Parameters: the ids of `randomUUID`, the hashes (of an address, a shape, a request, a subject, a code),
-- the signing of tokens (jose: what it signs is read back until its end), the database's collation (a
-- strict total order), the answers of the inference server, the converter, the queue and the object
-- store, and whether the best-effort refund reaches the database. The platform's base64url passes over
-- characters outside its alphabets.
--
-- A subquery `id IN (SELECT id FROM jobs WHERE ...)` is a test of the id over the jobs as they are when
-- the statement runs. A cutoff `time < now - days` is `time + days < now`. The view quality_review_jobs,
-- which Consents has over its own rows, is a test of a job in History.
--
-- Not modelled: HTTP and the routes of authentication, the administration pages, the image and pose
-- pipelines, metrics, mail, the registration of installations and users, the checks of the body catalog,
-- the upgrade of old results for manual export, and the text of a notification's embeds.
pub mod Prelude
pub mod Limits
pub mod Clients
pub mod Images
pub mod Scopes
pub mod Alerts
pub mod Hands
pub mod Bodies
pub mod Consents
pub mod Tokens
pub mod Jobs
