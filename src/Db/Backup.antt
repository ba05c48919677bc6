-- ===== src/Db/Backup.antt =====
-- backup.go: a copy of the log up to `walSize`, and the file that it becomes.
pub mod Laws
use btypedb.Prelude.{
  Bool, true, false, not, Option, none, some, Result, ok, err, Error, closed, io_failure,
  if◌then◌else◌, length,
}
use btypedb.Prelude.Order.{Order}
use btypedb.Bytes.{Bytes}
use btypedb.State.{Trees}
use btypedb.Db.Handle.{Db, File, WriteOutcome, temp_file, synced_file}
use btypedb.Db.Replication.{Copied, refused, copy_section}

-- What the system answers during one call of `Backup`.
pub record BackupIo : Type 0 where
  pub create : Bool
  pub copy : WriteOutcome
  pub sync : Bool
  pub rename : Bool
  pub close : Bool

-- The destination, and the temporary file beside it.
pub record Place : Type 0 where
  pub dest : Option File
  pub tmp : Option File

module _ {K : Type 0} {o : Order K} {V : Type 0} (trees : Trees o V) where
  unfoldable pub backup_to : WriteOutcome → Db trees → Copied
  unfolding copy_section
  backup_to w db =
      if db.is_closed then refused closed else copy_section w db.file.content 0 db.wal_size

  abbrev discarded : Place → Place
  discarded p = record p { tmp = none }

  abbrev renamed : File → Place
  renamed f = record { dest = some f; tmp = none }

  abbrev on_synced : BackupIo → Place → File → Result (Unit {0}) × Place
  on_synced io p f =
      if not io.sync
      then (err io_failure, discarded p)
      else if not io.rename
      then (err io_failure, discarded p)
      else (if io.close then ok tt else err io_failure, renamed f)

  abbrev on_copied : BackupIo → Place → Copied → Result (Unit {0}) × Place
  on_copied io p c = elim c.failure [
    | some e ↦ (err e, discarded p)
    | none ↦ on_synced io p (synced_file trees io.sync (temp_file trees c.sent))
  ]

  -- `SyncDir` is best effort and answers nothing.
  unfoldable pub backup : BackupIo → Db trees → Place → Result (Unit {0}) × Place
  unfolding backup_to
  backup io db p =
      if not io.create then (err io_failure, p) else on_copied io p (backup_to io.copy db)
