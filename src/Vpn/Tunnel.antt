-- ===== src/Vpn/Tunnel.antt =====
-- src/vpn/tunnel.rs: the two tasks of a tunnel.
pub mod Reader
pub mod Writer
pub mod Ingress
pub mod EndToEnd
mod Tests
