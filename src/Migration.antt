-- ===== src/Migration.antt =====
-- internal/migration: the migration agent's task runner, data plane and file transfer.
pub mod Canonical
pub mod Int64
pub mod Task
pub mod Scope
pub mod Files
pub mod Transfer
pub mod Tickets
