-- ===== src/Router.antt =====
-- router.go: from an authenticated connection to the user's state.
pub mod Route
pub mod Admission
pub mod Packet
pub mod Closing
