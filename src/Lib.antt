-- ===== src/Lib.antt =====
-- Verification of oldman, an agent that buys observations from other agents, remembers them, and sells
-- answers with citations. This library models the requests it serves, the credits that pay for them,
-- the storage of what is published, the trust in those who publish, the reflections on what was
-- stored, and the checks on the answers.
--
-- The parts, and the files of the repository that they translate:
--   Config: the settings (app/config.py).
--   Books, Audit, Credits: the payment tables, app/credits/audit.py and app/credits/ledger.py.
--   Invoices: app/storage/invoices.py. Payout: app/trust/payout.py.
--   RefundPool: app/trust/refund_pool.py.
--   Charge: `_charge_querier_or_fallback` of app/a2a/executor.py, which settles an invoice by a transfer
--     and accrues the pool fee.
--   Json, Dedup, Archive: app/storage/dedup.py, events.py, entities.py and identities.py.
--   Floats, Village, Trust, Service: app/trust/ledger.py, membership.py, service.py and
--     app/storage/trust.py.
--   Db: books, archive, village and canaries as one database. Publish: `execute_publish` of
--     app/api/publish.py, which pays through Credits or Payout, stores through Archive and reports to
--     Service. Canary: app/trust/canary.py. Corroboration: app/trust/corroboration.py, which revokes
--     escrows of Payout.
--   Erc8004: the mock registries of app/trust/erc8004.py. Sanctions: app/trust/sanctions.py, which reads
--     Village and writes the registry of feedbacks.
--   Did: base58 and did:key of app/trust/identity.py.
--   Migrations: `apply_migrations` of app/storage/db.py.
--   Reflection: app/reflection/state.py, traits_compile.py, output_schema.py and scheduler.py, and the
--     reflections that app/api/publish.py starts after a publish.
--   Narrative: app/narrative/citation.py, sentences.py, validator.py, judge.py, renderer.py, evidence.py
--     and smalltalk.py, `execute_query` of app/api/query.py, and the cold start of app/state/cold_start.py.
--   Reputation: app/trust/report.py and app/narrative/reputation.py.
--   Task: the A2A side. Task.Message is app/a2a/intents.py, Task.Session the event queue of
--     app/a2a/task_emitter.py beside the database, Task.Filters and Task.Payload the requests of
--     app/api/schemas.py, and Task.Executor the dispatch of app/a2a/executor.py, which calls Publish,
--     Charge, Narrative, Payout and Reputation. Task.Process is a coroutine as segments between its
--     awaits, Task.Rendering the renderer and the judged validation as such a coroutine, Task.Routine
--     the same dispatch as such a coroutine, and Task.World the requests that run at the same time over
--     one database, with `cancel` and `_in_flight`.
--   Prelude, Exec, Table: shared helpers, calls that may raise with transactions, and tables as lists.
--     Exec.Rules says what holds after a finished call, Exec.Stable what is kept on every outcome, and
--     Exec.Ends what holds of value and error alike.
--   Examples: concrete databases on which each theorem is applied and the code runs.
--
-- How the code is read. A function that takes a connection is a function of the tables that it
-- touches, which returns a value or an error and the tables after it. BEGIN with COMMIT or ROLLBACK is
-- `transaction`; a write before an error stays where the source has no transaction. Rows keep the
-- order of insertion, and ties of ORDER BY that order. Constraints raise errors where a statement can
-- meet them: CHECK on balances and amounts, the range of INTEGER (above 2147483647 is `out_of_range`),
-- UNIQUE on payload hashes and on DIDs; columns with CHECK ... IN are enumerations. Amounts are natural
-- numbers: a negative amount takes the branch of zero. `uuid4` hands out the names of a supply; a
-- rollback also takes back the count of drawn names, whose names left no trace. The clock stands
-- still within one call. Timestamps are microseconds.
--
-- What is a parameter: floats are an interface with the laws of IEEE doubles without NaN that
-- the proofs use (Floats), where a quotient or a root that Python refuses has some value, and the
-- exceptions are `decay_fault` and `lower_bound_fault` of Trust; the rounded share of the listing fee is a function of the settings;
-- NFC, splitting into words and sha256 are TextServices, `strip` and `lower` StrServices; the
-- signature check, the language models, json and the parsing of time stamps, and the effect of
-- an SQL script are functions. A query takes any judge; that of the source is Narrative.Judge.
-- The loop of the renderer runs on the number of attempts left, which is the retry limit and
-- one, as in the source. The division loop of base58 runs on the number itself as fuel, which
-- suffices since each turn at least halves it.
--
-- The event loop resumes any request at any time: Task.World takes the order as a list, and a
-- request needs at most 101 turns, the number of its segments on the longest path: a query makes
-- at most three attempts, each with one await of the model and one of the judge for each citation,
-- of which there are at most thirty, the limit on the evidence.
-- Task.Routine also cuts before some calls that await nothing, which only adds orders; the
-- reflections that a publish starts in the background stand beside it. Nothing runs between the
-- BEGIN and the COMMIT of a transaction, since the source awaits nothing there.
--
-- What is narrower than the source: the numbers of Json are natural; a model and a judge are
-- functions of what they are asked, so that the same question has the same answer; the share of the
-- listing fee is a number for all settings, also for a ratio that is not finite; the identifiers
-- that `uuid4` draws for invoices are taken as new, so that the primary key of invoices is not met
-- twice.
--
-- `_in_flight` is a flag of the request that it has under a task: a second query of the task takes the
-- flag over, the `finally` of `execute` drops it as a step of its own, and `cancel` reaches only the
-- request with the flag, whose query is not done. That query gets the exception when it is resumed.
--
-- Not modelled: the reading of settings from the environment, the locks of the reflections,
-- which run one after the other here, signing and the generation of keys, which only call a
-- library, the wording of prompts, the web framework's routes and pages, the clients of the
-- model providers, the consistency probe, which no other part calls, and the scripts and
-- evaluations, which drive the parts above or print statistics.
pub mod Prelude
pub mod Exec
pub mod Table
pub mod Books
pub mod Audit
pub mod Credits
pub mod Config
pub mod Invoices
pub mod Payout
pub mod RefundPool
pub mod Charge
pub mod Floats
pub mod Village
pub mod Trust
pub mod Service
pub mod Json
pub mod Dedup
pub mod Migrations
pub mod Did
pub mod Archive
pub mod Db
pub mod Publish
pub mod Canary
pub mod Corroboration
pub mod Reflection
pub mod Narrative
pub mod Reputation
pub mod Erc8004
pub mod Sanctions
pub mod Task
mod Examples
