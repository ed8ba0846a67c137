-- ===== src/Aws.antt =====
-- What the program keeps about AWS beside the tables of all clouds, and the operations on it.
pub mod Tables
pub mod Images
pub mod Inspections
pub mod Attempts
pub mod Saved
pub mod Instances
pub mod Linked
pub mod Events
pub mod Missing
pub mod Stopped
pub mod Started
pub mod Recorded
pub mod Describe
pub mod Announced
mod Tests
mod Examples
