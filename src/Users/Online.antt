-- ===== src/Users/Online.antt =====
-- users.go: the connections of a user and the addresses that they come from.
pub mod Session
pub mod Opened
pub mod Reported
