-- ===== src/Broker.antt =====
-- internal/migration/broker.go and writer_fence_inhibitor.go: the privileged broker.
pub mod State
pub mod System
pub mod Services
pub mod Admission
pub mod Fence
pub mod Release
pub mod Watchdog
mod Examples
