-- ===== src/Scheduler.antt =====
-- `internal/deployment/worker/scheduler.go`: the lanes of the deployment worker.
pub mod Lanes
pub mod Flight
pub mod Bounds
pub mod Filling
