-- ===== src/Cache.antt =====
-- The cache (vyuh/src/cache).
pub mod Error
pub mod Integers
pub mod Store
pub mod Memory
pub mod Key
pub mod Provider
pub mod Config
pub mod Runtime
