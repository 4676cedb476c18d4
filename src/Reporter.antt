-- ===== src/Reporter.antt =====
-- common/reporter: what is sent to Sentry, and how often.
pub mod Key
pub mod Limit
pub mod History
pub mod Runs
pub mod Sentry
pub mod Logger
pub mod Window
