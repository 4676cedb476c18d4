-- ===== src/Tests.antt =====
-- Concrete runs of the models, and each theorem at a concrete input.
mod Data
mod Users
mod Destination
mod Limit
mod Audit
mod Proxy
mod Panel
mod Nodes
mod Server
mod Router
mod Reporter
mod Inbound
mod Build
mod Life
mod Runs
mod Atomic
mod Accounts
mod Order
mod Shutdown
