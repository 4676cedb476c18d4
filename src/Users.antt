-- ===== src/Users.antt =====
-- users.go: the accounting for the panel's users.
pub mod State
pub mod Table
pub mod Pending
pub mod Update
pub mod Collect
pub mod Restore
pub mod Online
pub mod Limits
pub mod Ledger
pub mod Atomic
