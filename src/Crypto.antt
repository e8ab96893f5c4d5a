-- ===== src/Crypto.antt =====
-- src/crypto: the encryption of the token of an SSO login.
pub mod Hpke
