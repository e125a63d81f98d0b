-- ===== src/Cache.antt =====
-- crates/ngxora-runtime/src/cache.rs: the response cache. `Location` has one location's store,
-- `Backend` the stores of all locations and their generation.
pub mod Types
pub mod Location
pub mod Backend
