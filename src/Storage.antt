-- ===== src/Storage.antt =====
-- Persistence: internal/storage.
pub mod Codec
pub mod Badger
pub mod Batcher
mod Examples
