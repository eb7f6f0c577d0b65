-- ===== src/Storage.antt =====
-- internal/storage: the in-memory stores.
pub mod Memory
pub mod Discovery
pub mod Drift
pub mod Recommendations
