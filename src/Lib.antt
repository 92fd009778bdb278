-- ===== src/Lib.antt =====
-- A model of the core of HRM-GRAG's API server (gmrag_api), with the theorems that it is correct.
--
-- The server turns uploaded documents into a searchable graph. An upload writes a document and a
-- job; workers claim jobs under a lease, process them and record the outcome. Deletions in other
-- systems go through outboxes, whose rows are tried until they succeed or are given up. In front
-- stand a rate limiter and, in HRM mode, a scope check and the provisioning of a token's role.
--
-- Which file models which part:
--   Db            the PostgreSQL connection: statements, transactions, failures, the clock.
--                 A state is a record of tables; `Db.Atomic` reads an operation as one function
--                 of the tables, `Db.Kept` draws conclusions for answers and invariants.
--   Updates       laws of UPDATE ... WHERE on a list of rows, shared by the components.
--   Outbox        gmrag_api/src/outbox/mod.rs: `compute_backoff_secs`,
--                 `disposition_after_failure`, `parse_env_i64` and its siblings. `Outbox.Table`
--                 and `Outbox.Run` have the statements and the loop that
--                 gmrag_api/src/retrieval/outbox.rs and gmrag_api/src/storage/outbox.rs both write.
--   Ingestion     gmrag_api/src/ingestion/jobs.rs: `Tables` has the rows, `Claims` and
--                 `Statements` what each SQL statement selects and writes, `Queue` the
--                 operations under the names of the source. `Steps` is the relation of all
--                 operations by anybody at any time, `Invariants` and `Statementwise` reduce an
--                 invariant to its statements; the other modules hold the theorems.
--   RateLimit     gmrag_api/src/rate_limit.rs: `classify_rule`, the scope keys, `allow` of the
--                 sliding window, `enforce_rate_limits`.
--   Hrm           gmrag_api/src/auth/hrm.rs: `from_env`, `role_relation`, the alias, `ensure_scope`;
--                 `Hrm.Provision` has `provision_identity` against an OpenFGA server.
--   Qdrant        gmrag_api/src/retrieval/outbox.rs: `Config` the settings and the command line,
--                 `Rows` what is put into the table, `Processor` what a row asks for.
--   Storage       gmrag_api/src/storage: `Client` and `Listing` are mod.rs over the S3 SDK,
--                 `Cleanup` and `Orphans` are cleanup.rs, `Settings`, `Rows` and `Processor` are
--                 outbox.rs (and the configuration of mod.rs).
--   Admission     gmrag_api/src/admission.rs: the settings, `advance` as the steps of `acquire`, and
--                 the relation of all requests' steps.
--   Authz         gmrag_api/src/auth/authz.rs: tuples, errors, and `delete_tuples_fga_first`.
--   Acl           gmrag_api/src/auth/document_acl.rs: `Viewing` answers who sees what, `Change` changes
--                 it, `Permissions` and `Replace` declare it as a whole. An operation goes from a state of the database and OpenFGA to a result and
--                 the state after it, since the two change in turns.
--   AuthzOutbox   gmrag_api/src/auth/outbox.rs: `Config`, `Rows` and `Processor` as for the other
--                 outboxes, with a loop of its own; `Role` is
--                 gmrag_api/src/auth/workspace_role.rs.
--   Prelude       shared names: Boolean tests, lists by native numbers, i32 and i64 as integers,
--                 Rust's strings as lists of code points.
-- Each component's `Checks` module runs it on concrete data.
--
-- Correspondence. A UUID is a number, and gen_random_uuid() a counter. Times are whole seconds.
-- An operation takes a `World` (tables, clock, and what the environment does at each coming round
-- trip) and gives a result and the world after it. `SKIP LOCKED` is a parameter that says which
-- rows others hold. Concurrency is an arbitrary sequence of operations: PostgreSQL's row locks
-- order the conflicting ones, and every UPDATE tests the row again. JSON codecs, UUID text, the
-- OpenFGA server and the retrieval client are parameters; what is assumed of OpenFGA are the laws
-- in the records `Fga` of Hrm.Provision, `Laws` of Authz and `Answers` of Acl.Listing, and of S3
-- those in Storage.Deletion. `Configured` of Authz is an assumption on the deployment: a refusal
-- that speaks of something missing is about the tuple, not about the store or the model.
-- A request that fails may have been carried out all the same: that holds of every statement and
-- COMMIT, and of OpenFGA's requests. Rows that others enqueue during the run of an outbox are left
-- out; what others do during a scan for orphans is a parameter.
--
-- Fuel: the run of an outbox and the loop over the pages of a listing are on fuel, and `none` says
-- that it ran out. For a run, one more than the rows of the table is enough, and for a listing one
-- more than what the server has left; the total listing is defined by that.
--
-- Not modelled: HTTP routes, chat and model calls, PDF and OCR, the Qdrant client, reports and
-- command-line tools, which come after the core here or are mostly calls of services. Log lines
-- have no counterpart. The lifetime of a lock inside PostgreSQL and wrap-around of attempt counters
-- beyond i32 are not modelled.
mod Prelude
pub mod Db
pub mod Updates
pub mod Ingestion
pub mod Outbox
pub mod RateLimit
pub mod Hrm
pub mod Qdrant
pub mod Storage
pub mod Admission
pub mod Authz
pub mod AuthzOutbox
pub mod Acl
