-- ===== src/Client.antt =====
-- The package client: its options and the two ends of its streams.
pub mod Options
pub mod Streams
pub mod Counter
pub mod Layers
pub mod Copy
pub mod Paste
pub mod Calls
