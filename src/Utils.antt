-- ===== src/Utils.antt =====
-- The code under src/utils.
pub mod Cert
