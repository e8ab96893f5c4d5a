-- ===== src/Vpn.antt =====
-- The code under src/vpn.
pub mod Cstp
pub mod Dtls
pub mod DtlsEngine
pub mod IpPool
pub mod TunDevice
pub mod Tunnel
