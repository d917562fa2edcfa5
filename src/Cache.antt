-- ===== src/Cache.antt =====
-- The two caches of aws_advanced_python_wrapper/utils: cache_map.py and sliding_expiration_cache.py.
pub mod Map
pub mod Sliding
mod Tests
