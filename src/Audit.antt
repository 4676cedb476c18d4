-- ===== src/Audit.antt =====
-- audit.go: matching connections against the panel's detect rules, and keeping the hits until they
-- are reported.
pub mod Auditor
pub mod Match
pub mod Hits
