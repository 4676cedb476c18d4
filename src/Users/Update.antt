-- ===== src/Users/Update.antt =====
-- What `update` does to the users' states and to their traffic.
pub mod Balance
pub mod Frame
pub mod Valid
pub mod Served
pub mod Outcome
