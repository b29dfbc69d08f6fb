-- ===== src/Events.antt =====
-- The events and logs of runner requests, package `internal/state`.
pub mod Log
pub mod Contents
pub mod Latest
pub mod Replay
