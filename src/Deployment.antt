-- ===== src/Deployment.antt =====
-- Deployments, `internal/state/deployments.go` and `internal/state/deployment_revisions.go`: their
-- rows, revisions and events, the operations of the store on them, and what holds of those operations.
pub mod Types
pub mod Convert
pub mod Paths
pub mod Normalize
pub mod Store
pub mod Writing
pub mod Retry
pub mod Pruning
pub mod Frames
pub mod Changes
pub mod Titles
pub mod Revisions
pub mod Budget
pub mod Eviction
pub mod Room
pub mod Appending
pub mod Timeline
pub mod Sound
pub mod Kept
pub mod SoundRetry
pub mod SoundPruning
pub mod Counting
pub mod History
pub mod SoundAppending
pub mod SoundTitles
pub mod Consistency
pub mod Reading
pub mod Places
pub mod Limits
pub mod Work
pub mod WorkPages
pub mod WorkLanes
pub mod Filter
pub mod Groups
pub mod Totals
pub mod Access
pub mod Authorized
pub mod Listing
pub mod Polling
