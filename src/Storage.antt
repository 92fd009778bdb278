-- ===== src/Storage.antt =====
-- gmrag_api/src/storage: the object store of the uploaded files. `Client` and `Listing` are mod.rs,
-- `Settings` its configuration, `Cleanup` is cleanup.rs, and `Rows` and `Processor` are outbox.rs.
pub mod Client
pub mod Listing
pub mod Cleanup
pub mod Orphans
pub mod Settings
pub mod Rows
pub mod Processor
pub mod Deletion
pub mod Safety
pub mod Scan
pub mod Prefix
pub mod Completion
pub mod Checks
