-- ===== src/AuthzOutbox.antt =====
-- gmrag_api/src/auth/outbox.rs, the outbox of tuples for OpenFGA, and the roles of
-- gmrag_api/src/auth/workspace_role.rs. `Config` has the settings, `Rows` the table and its
-- statements, `Processor` what a row asks for and the run.
pub mod Role
pub mod Config
pub mod Rows
pub mod Processor
pub mod RoleSync
pub mod Synced
pub mod Ids
pub mod Completion
pub mod Checks
