-- ===== src/Destination.antt =====
-- destination.go: which destinations a user may reach.
pub mod Filter
pub mod Ranges
pub mod Check
pub mod Dialer
pub mod Safety
