-- ===== src/Db/Backup/Laws.antt =====
-- A backup is a whole database, or the destination is what it was.
use btypedb.Prelude.{ℕ, ◌≡◌, refl, none, some, ok, length, take, ◌⊎◌, arith}
use btypedb.Prelude.Order.{Order}
use btypedb.Bytes.{Bytes}
use btypedb.State.{Trees, empty_state}
use btypedb.Wal.Replay.Crash.{recovered}
use btypedb.Db.Apply.{Format}
use btypedb.Db.Replay.{forget}
use btypedb.Db.Handle.{Db, File}
use btypedb.Db.Log.{apply, IsDurableLog}
use btypedb.Db.Recovery.{reopened, reopen-whole}
use btypedb.Db.Replication.{copy_section}
use btypedb.Db.Backup.{BackupIo, Place, backup, backup_to}

module _ {K : Type 0} {o : Order K} {V : Type 0} (trees : Trees o V) where
  -- What `Backup` leaves at the destination.
  abbrev pub whole_copy : Db trees → File
  whole_copy db =
      let bytes = take db.wal_size db.file.content in
      record { content = bytes; durable = length bytes }

  -- Backup is atomic: whatever the system answers, the destination is what it was, or the log up to
  -- walSize, whole and synced.
  pub backup-dest :
      (io : BackupIo) (db : Db trees) (p : Place)
      → ((backup trees io db p).1.dest ≡ p.dest)
        ⊎ ((backup trees io db p).1.dest ≡ some (whole_copy db))
  unfolding backup backup_to copy_section
  backup-dest io db p = ground arith

  backup-ok :
      (io : BackupIo) (db : Db trees) (p : Place)
      → (backup trees io db p).0 ≡ ok tt
      → (backup trees io db p).1 ≡ record { dest = some (whole_copy db); tmp = none }
  unfolding backup backup_to copy_section
  backup-ok io db p h = ground (arith, h)

  -- A Backup that succeeds leaves no temporary file, and a synced file at the destination that
  -- replays, without an error, to the state of the database, its indexes apart, if the log of the
  -- database replays to its state, also where a failed append left bytes behind walSize.
  pub backup-reopened :
      (format : Format K V) (hdr : Bytes) (io : BackupIo) (db : Db trees) (p : Place)
      → IsDurableLog trees format (empty_state trees) hdr db
      → (backup trees io db p).0 ≡ ok tt
      → (f : File) × (valid : ℕ) × (parsed : ℕ) × ((backup trees io db p).1
          ≡ record { dest = some f; tmp = none })
        × (f.durable ≡ length f.content)
        × (reopened trees format hdr f.content
            ≡ recovered (apply trees format) (forget trees db.state) valid parsed)
  backup-reopened format hdr io db p h good =
      let (valid, parsed, replays) = reopen-whole trees format hdr db h in
      (whole_copy db, valid, parsed, backup-ok io db p good, refl, replays)
