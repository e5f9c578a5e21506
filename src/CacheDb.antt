-- ===== src/CacheDb.antt =====
-- rssdisk/rssdisk/extentions/c_manager.cpp and c_manager.h: the cache database, a `map_time` from
-- keys to items, filled by packets of binary records.
pub mod Manager
pub mod Packets
pub mod Ends
pub mod Client
pub mod Persist
pub mod Search
pub mod Examples
unfoldable pub use Manager.*
