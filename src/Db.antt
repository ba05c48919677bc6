-- ===== src/Db.antt =====
-- db.go: the handle of a database.
pub mod Apply
pub mod Replay
pub mod Handle
pub mod Header
pub mod Open
pub mod Reads
pub mod Iterators
pub mod Index
pub mod Replication
pub mod Compact
pub mod Backup
pub mod Writes
pub mod Transactions
pub mod Sweep
pub mod Log
pub mod Recovery
pub mod Recoverable
pub mod Reach
pub mod Close
pub mod Options
pub mod Durability
pub mod Group
pub mod Atomic
pub mod Acknowledged
