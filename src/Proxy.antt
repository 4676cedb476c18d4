-- ===== src/Proxy.antt =====
-- proxy/: how each node server turns the panel's users into credentials.
pub mod Credentials
pub mod Hysteria2
pub mod AnyTls
pub mod Shadowsocks
pub mod Trojan
pub mod Tuic
pub mod Vmess
pub mod New
pub mod Buildable
pub mod Decimal
pub mod Handlers
pub mod Life
pub mod Released
