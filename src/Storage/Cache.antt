-- ===== src/Storage/Cache.antt =====
-- storage/cache.py: `CacheStore`. A table that a query lists is a table here, without its order.
pub mod Warmed
pub mod Bans
pub mod Interest
pub mod Nix
pub mod Replacements
pub mod Removal
pub mod Demand
pub mod Tests
