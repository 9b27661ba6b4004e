-- ===== src/Tests.antt =====
-- The theorems at concrete inputs: cell keys and write-ahead log objects, handlers, and filters.
mod Keys
mod Handlers
mod Wal
mod Engine
mod Filters
mod Stores
mod Server
