-- ===== src/Cache.antt =====
-- The caches of the service: backend/cache_service.py and backend/server/capability_cache.py.
pub mod Delta
pub mod Capability
