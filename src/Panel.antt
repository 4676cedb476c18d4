-- ===== src/Panel.antt =====
-- api/serverv1: the client of the panel.
pub mod Config
pub mod Node
pub mod Settings
pub mod Client
pub mod NewClient
pub mod Number
pub mod Fetch
