-- ===== src/Migration/Files.antt =====
-- internal/migration/files.go: disk capacity and transferred manifests.
pub mod Capacity
pub mod Manifest
pub mod Listed
mod Examples
