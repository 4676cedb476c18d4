-- ===== src/Users/Restore.antt =====
-- `restoreTraffic` puts back what a failed report took, and counting adds to what is pending.
pub mod Count
pub mod Find
