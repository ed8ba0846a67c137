-- ===== src/Usage.antt =====
-- Concurrent usage: how many RHEL instances of a user ran at once on a date.
pub mod Tally
pub mod Entries
pub mod Calculate
pub mod Peak
pub mod Concurrency
pub mod Dates
pub mod Refresh
mod Tests
