-- ===== src/Scheduler.antt =====
-- coordinator/internal/scheduler/scheduler.go: fan-out overrides, fair shares and work grants.
pub mod Shares
pub mod Spread
pub mod Policy
pub mod Grant
