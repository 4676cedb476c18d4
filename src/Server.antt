-- ===== src/Server.antt =====
-- server.go: keeping the node in line with the panel.
pub mod Fetched
pub mod Sync
pub mod State
pub mod Node
pub mod Push
pub mod Life
pub mod Recover
pub mod Unavailable
pub mod New
pub mod Resolve
pub mod Steps
pub mod Loops
pub mod Runs
pub mod Attribution
pub mod Given
pub mod Authenticated
pub mod Order
pub mod Ticker
