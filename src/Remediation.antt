-- ===== src/Remediation.antt =====
-- internal/remediation: commands, the executors that run them, and the built-in playbooks.
pub mod Machine
pub mod Playbooks
pub mod Engine
mod Examples
