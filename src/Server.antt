-- ===== src/Server.antt =====
-- The package server.
pub mod Config
pub mod Streams
pub mod Handlers
