-- ===== src/Users/Limits.antt =====
-- users.go: the speed limits of the users, from the panel's list to the limiters.
pub mod Set
pub mod Round
pub mod Served
pub mod Runs
