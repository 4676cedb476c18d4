-- ===== src/Limit.antt =====
-- common/limit/limiter.go: throttling by a token bucket for each direction.
pub mod Bucket
pub mod Wait
pub mod Conn
pub mod Ops
