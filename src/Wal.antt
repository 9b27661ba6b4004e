-- ===== src/Wal.antt =====
-- pkg/walcloud/manager.go: the write-ahead log in object storage.
pub mod Batches
pub mod Merged
pub mod Paths
pub mod Objects
pub mod Manager
