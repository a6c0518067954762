-- ===== src/Operations.antt =====
-- internal/operations: actions that the server asks for, run step by step.
pub mod Data
pub mod Params
pub mod Handlers
pub mod Plan
pub mod Playbook
pub mod Runner
mod Examples
