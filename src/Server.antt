-- ===== src/Server.antt =====
-- server/src: the set-up of the server.
pub mod Config
pub mod Migrate
pub mod Health
