-- ===== src/Auth.antt =====
-- The code under src/auth. A `UserInfo` is what an authentication gives.
pub mod User
pub mod Password
pub mod Provider
pub mod Sso
pub mod Session
