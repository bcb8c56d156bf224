-- ===== src/Sources.antt =====
-- The source manager of the parser, parser/src/sourcemanager.cpp, and what it stands on.
pub mod Model
pub mod Manager
pub mod Keys
pub mod Status
pub mod Incremental
pub mod Statuses
pub mod Store
pub mod Synced
pub mod Between
pub mod Copies
pub mod Rounds
pub mod Persisted
pub mod Erased
pub mod Last
pub mod Removed
pub mod Cleanup
pub mod Taken
pub mod Cleaned
pub mod Parents
pub mod Cached
pub mod Total
