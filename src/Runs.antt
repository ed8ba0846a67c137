-- ===== src/Runs.antt =====
-- Runs: the periods for which an instance was powered on.
pub mod Scan
pub mod Sorted
pub mod Sorting
pub mod Denormalize
pub mod Recalculate
pub mod Coverage
pub mod Chronology
pub mod History
pub mod Single
pub mod Effects
pub mod Relevant
pub mod Repair
pub mod Problematic
pub mod Fixing
pub mod Recent
pub mod Fresh
mod Tests
