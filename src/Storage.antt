-- ===== src/Storage.antt =====
-- The package storage: a clipboard in a badger database.
pub mod Badger
pub mod Keys
pub mod Batch
pub mod Write
pub mod Scan
pub mod Read
pub mod Gc
pub mod Open
