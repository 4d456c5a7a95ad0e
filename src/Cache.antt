-- ===== src/Cache.antt =====
-- api/services/cache.py
pub mod Memory
pub mod Redis
