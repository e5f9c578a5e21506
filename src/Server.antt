-- ===== src/Server.antt =====
-- rssdisk/rssdisk/disk_server.cpp and disk_server.hpp: the file server.
pub mod Text
pub mod WType
pub mod Disk
pub mod Header
pub mod Message
pub mod Content
pub mod Accept
pub mod Read
pub mod Remove
pub mod Ttl
pub mod Locks
pub mod Examples
