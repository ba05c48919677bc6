-- ===== src/Wal.antt =====
-- wal.go: the write-ahead log.
pub mod Record
pub mod Reader
pub mod Replay
pub mod Scan
