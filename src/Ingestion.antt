-- ===== src/Ingestion.antt =====
-- gmrag_api/src/ingestion/jobs.rs: the durable queue of ingestion jobs. `Tables` has the rows,
-- `Statements` what each SQL statement writes, `Queue` the operations of the file; the children
-- below hold what is proved of them.
pub mod Tables
pub mod Claims
pub mod Statements
pub mod Queue
pub mod Effects
pub mod Steps
pub mod Invariants
pub mod Statementwise
pub mod Fencing
pub mod Soundness
pub mod Exclusive
pub mod Handles
pub mod Completion
pub mod Requeue
pub mod Takeover
pub mod Outcomes
pub mod Checks
