-- ===== src/Tests/Replicas.antt =====
-- The theorems on replication, backup and compaction at concrete inputs.
use btypedb.Prelude.{
  ℕ, ◌+◌, ◌≤◌, ◌≡◌, refl, true, false, none, some, List, [], ◌++◌, ok, length, arith, ◌⊎◌,
  length-take,
}
use btypedb.Prelude.Int.{pos}
use btypedb.Bytes.{Bytes, put_le}
use btypedb.Wal.Record.{WalRecord, frame, record_body, prepend_deadline}
use btypedb.Wal.Replay.Crash.{total_size, apply_groups, recovered}
use btypedb.Encrypt.{log_header}
use btypedb.State.{DbState, empty_state}
use btypedb.Db.Replay.{forget}
use btypedb.Db.Handle.{File, wrote, cut_at, can_write, write_log, wait_durable, lead}
use btypedb.Db.Transactions.{commit}
use btypedb.Db.Log.{apply}
use btypedb.Db.Recovery.{reopened}
use btypedb.Db.Replication.{read_log_range, read_range, copy_section}
use btypedb.Db.Replication.Ranges.{IsServed, IsRefused, read_log_range-IsServed}
use btypedb.Db.Replication.Steps.{LogStep}
use btypedb.Db.Replication.Follower.{Follows, Follows-reopened}
use btypedb.Db.Backup.{BackupIo, Place, backup, backup_to}
use btypedb.Db.Backup.Laws.{whole_copy, backup-dest, backup-reopened}
use btypedb.Tests.Setup.{trees, format, new_db, good_io}
use btypedb.Tests.States.{written_tx}
use btypedb.Tests.Commits.{length-log_header, committed, committed-log}

read_log_range-IsServed_example :
    IsRefused trees (read_log_range trees (cut_at 5) new_db 0 (pos 4) (pos 1000))
    ⊎ IsServed trees new_db 0
        (pos 4)
        (pos 1000)
        (read_log_range trees (cut_at 5) new_db 0 (pos 4) (pos 1000))
read_log_range-IsServed_example =
    read_log_range-IsServed trees (cut_at 5) new_db 0 (pos 4) (pos 1000)

-- A follower that asked before the commit.
abbrev shipped : Bytes
shipped = [] ++ (read_log_range trees wrote new_db 0 (pos 0) (pos 1000)).sent

shipped-Follows : Follows trees format 0 committed.1 shipped
shipped-Follows =
    Follows.goes_on new_db committed.1 shipped
      (Follows.polls wrote 1000 new_db []
        (Follows.begins new_db (omega (arith, length-log_header))))
      (LogStep.commits good_io written_tx new_db)

length-shipped : length log_header ≤ length shipped
unfolding read_log_range read_range copy_section
length-shipped = omega (arith, length-take 16 log_header, length-log_header)

Follows-reopened_example :
    (kept : List (List WalRecord)) × (gone : List (List WalRecord)) × (t : DbState trees) × (p : ℕ)
    × (committed-log.groups ≡ kept ++ gone)
    × (apply_groups (apply trees format) (forget trees (empty_state trees)) kept ≡ ok t)
    × (reopened trees format log_header shipped
        ≡ recovered (apply trees format) t (total_size kept) (total_size kept + p))
Follows-reopened_example =
    Follows-reopened trees format 0 log_header committed.1 shipped shipped-Follows committed-log
      length-shipped

abbrev good_backup : BackupIo
good_backup = record { create = true; copy = wrote; sync = true; rename = true; close = true }

abbrev no_place : Place
no_place = record { dest = none; tmp = none }

backup-dest_example :
    ((backup trees (record good_backup { rename = false }) committed.1 no_place).1.dest ≡ none)
    ⊎ ((backup trees (record good_backup { rename = false }) committed.1 no_place).1.dest
        ≡ some (whole_copy trees committed.1))
backup-dest_example = backup-dest trees (record good_backup { rename = false }) committed.1 no_place

backed_up : (backup trees good_backup committed.1 no_place).0 ≡ ok tt
unfolding backup backup_to copy_section commit can_write write_log wait_durable lead frame
    record_body put_le prepend_deadline
backed_up = refl

backup-reopened_example :
    (f : File) × (valid : ℕ) × (parsed : ℕ) × ((backup trees good_backup committed.1 no_place).1
      ≡ record { dest = some f; tmp = none })
    × (f.durable ≡ length f.content)
    × (reopened trees format log_header f.content
        ≡ recovered (apply trees format) (forget trees committed.1.state) valid parsed)
backup-reopened_example =
    backup-reopened trees format log_header good_backup committed.1 no_place committed-log backed_up
