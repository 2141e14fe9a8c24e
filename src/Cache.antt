-- ===== src/Cache.antt =====
-- functions/datafunction/caching.hpp: the block cache of a data function, with its LRU list.
pub mod Table
pub mod Lru
pub mod Blocks
pub mod Handover
use slsfs.Prelude.{ℕ}
