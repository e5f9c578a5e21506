-- ===== src/JsonDb.antt =====
-- The JSON database: its indices and the search through them (`JDatabaseManager::IndexUtility` of
-- rssdisk/rssdisk/extentions/j_manager.cpp), the queries (rssdisk/rssdisk/extentions/b_tree.cpp and
-- b_tree.h), and the documents (`JDatabaseManager`).
pub mod Index
pub mod Query
pub mod Fetch
pub mod Mapped
pub mod Header
pub mod Metadata
pub mod Content
pub mod Documents
