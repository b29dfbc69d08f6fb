-- ===== src/Request.antt =====
-- Runner requests, package `internal/state`: the rows, their conversions, the operations of the
-- store on them, and what holds of those operations.
pub mod Types
pub mod Record
pub mod Convert
pub mod Names
pub mod Links
pub mod Reading
pub mod Store
pub mod Writing
pub mod Queue
pub mod Counts
pub mod Display
pub mod Pages
pub mod Listing
pub mod Retry
pub mod Keys
pub mod Frames
pub mod History
pub mod Lease
pub mod Exclusion
pub mod Versions
pub mod Requeue
pub mod Paging
