-- ===== src/Cloudtrail.antt =====
-- The messages of CloudTrail: the events that are read from them, and what is saved.
pub mod Records
pub mod Extract
pub mod Relevance
pub mod Found
pub mod Tags
pub mod Changes
pub mod Latest
pub mod Interleaved
pub mod Loading
pub mod Saving
pub mod Stored
pub mod Known
pub mod Process
pub mod Messages
pub mod Paused
pub mod Stale
mod Tests
mod Examples
