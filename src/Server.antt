-- ===== src/Server.antt =====
-- src/server.rs
pub mod Tls
pub mod Config
pub mod Startup
pub mod SimpleQuery
pub mod Life
pub mod Verified
pub mod Shutdown
