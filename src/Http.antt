-- ===== src/Http.antt =====
-- The code under src/http.
pub mod Request
pub mod Response
pub mod Read
pub mod RawConnect
pub mod Write
pub mod Cookie
pub mod Login
pub mod ConnectFlow
pub mod Routes
pub mod Connection
pub mod State
