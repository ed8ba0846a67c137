-- ===== src/Accounts.antt =====
-- Cloud accounts and their users: enabling, disabling and deletion.
pub mod World
pub mod Clouds
pub mod Account
pub mod PowerOff
pub mod Enabling
pub mod Users
pub mod Removal
pub mod Removed
pub mod Departure
mod Tests
