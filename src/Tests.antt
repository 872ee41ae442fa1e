-- ===== src/Tests.antt =====
-- Concrete runs, and a concrete database.
pub mod Pairs
pub mod Store
pub mod Codecs
pub mod Layers
pub mod Examples
pub mod Storage
pub mod Setup
pub mod Transfers
pub mod Refusals
pub mod Sweeps
pub mod Commands
