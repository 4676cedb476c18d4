-- ===== src/Users/Collect.antt =====
-- What `collectTraffic` reports, and what it leaves in the table.
pub mod Loop
pub mod Order
pub mod Report
