-- ===== src/Capacity.antt =====
-- Admission under concurrency limits, `internal/server/server_runner_capacity.go`: the process-local
-- counters, their reservation protocol, and that the protocol never oversubscribes.
pub mod Board
pub mod Admission
pub mod Reserve
pub mod Protocol
pub mod Safety
pub mod Bound
pub mod Refusal
