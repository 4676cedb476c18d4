-- ===== src/Instance.antt =====
-- nextserver.go, cmd/next-server/main.go and constant/build.go: the program around the servers.
pub mod Life
pub mod Position
pub mod Shutdown
pub mod Command
pub mod Outcomes
