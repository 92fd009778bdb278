-- ===== src/Qdrant.antt =====
-- gmrag_api/src/retrieval/outbox.rs: the outbox of point deletions in Qdrant. `Config` has the
-- settings and the command line, `Rows` the table and its statements, `Processor` the run.
pub mod Config
pub mod Rows
pub mod Processor
pub mod Marks
pub mod Completion
pub mod Checks
