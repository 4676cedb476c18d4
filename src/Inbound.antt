-- ===== src/Inbound.antt =====
-- proxy/inbound: what the node servers share.
pub mod Accept
pub mod Listen
pub mod Stream
pub mod Tls
pub mod Alpn
