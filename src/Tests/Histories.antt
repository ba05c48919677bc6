-- ===== src/Tests/Histories.antt =====
-- The theorems on the databases that are reached, on a commit and then a compaction during which a
-- key is deleted.
use btypedb.Prelude.{ℕ, ◌+◌, ◌≤◌, ◌≡◌, refl, true, List, ◌++◌, ok, length, take, arith}
use btypedb.Prelude.Int.{ℤ, pos, leb_ℤ}
use btypedb.Prelude.Int.{to_uint64}
use btypedb.Prelude.Order.{ℕ_order}
use btypedb.Bytes.{put_le}
use btypedb.Btype.Sorted.{find, place, remove}
use btypedb.Codec.{bytes_codec}
use btypedb.Wal.Record.{frame, record_body, append_record, prepend_deadline}
use btypedb.Encrypt.{log_header, prefix, append_sealed_record}
use btypedb.State.{set, expired}
use btypedb.Db.Writes.{db_delete, acknowledge}
use btypedb.Db.Replication.{copy_section}
use btypedb.Db.Compact.{stream, splice, write_snapshot, snapshot_records, snapshot_record}
use btypedb.Tests.Commits.{length-log_header}
use btypedb.Wal.Record.{WalRecord}
use btypedb.Wal.Replay.Crash.{recovered, log_of, apply_groups, total_size, survivors, parsed_past}
use btypedb.Encrypt.{header_for}
use btypedb.State.{DbState, empty_state, get}
use btypedb.Db.Handle.{Db, can_write, write_log, wait_durable, lead, append_to_log, mark_durable}
use btypedb.Db.Transactions.{commit}
use btypedb.Db.Log.{apply, IsDurableLog}
use btypedb.Db.Recovery.{reopened}
use btypedb.Db.Compact.{compact}
use btypedb.Db.Reach.{Operation, Operations, Reach}
use btypedb.Db.Reach.Laws.{Reach-reopened, Reach-cut}
use btypedb.Tests.Setup.{
  trees, format, new_db, good_io, number_codec-RoundTrips, bytes_codec-RoundTrips, ℕ_order-IsExact,
}
use btypedb.Tests.States.{written_tx, written_tx-IsLogged}
use btypedb.Tests.Commits.{committed, new_db-IsDurableLog, delete_small}
use btypedb.Tests.Compactions.{compact_io, deleting, deadlines, records_small}

new_log : IsDurableLog trees format (empty_state trees) (header_for format.cipher) new_db
unfolding header_for
new_log = new_db-IsDurableLog

abbrev compacted : Db trees
compacted = (compact trees format compact_io deleting committed.1).1

history : Reach trees format new_db (pos 50) compacted
history =
    Reach.compacts (pos 10) compact_io deleting committed.1
      (Reach.steps (pos 10) new_db committed.1 (Reach.from_open (pos 10))
        (Operation.commits good_io written_tx new_db written_tx-IsLogged (omega arith)))
      refl (record { sound = λ n. tt; deadlines = deadlines; small = records_small })
      (Operations.goes committed.1 (deleting committed.1) Operations.start
        (Operation.deletes good_io (pos 50) committed.1 4 delete_small))

Reach-reopened_example :
    (t : DbState trees) × (valid : ℕ) × (parsed : ℕ) × (reopened trees format
        (header_for format.cipher)
        (take compacted.wal_size compacted.file.content)
      ≡ recovered (apply trees format) t valid parsed)
    × ((k : ℕ) (m : ℤ) → leb_ℤ (pos 50) m ≡ true → get trees compacted.state k m ≡ get trees t k m)
Reach-reopened_example =
    Reach-reopened trees format number_codec-RoundTrips bytes_codec-RoundTrips ℕ_order-IsExact
      new_db new_log (pos 50) compacted history

header_fits : length (header_for format.cipher) + 35 ≤ compacted.wal_size
unfolding compact stream splice write_snapshot mark_durable copy_section snapshot_records
    snapshot_record append_sealed_record append_record to_uint64 bytes_codec commit can_write
    write_log wait_durable lead set find place remove ℕ_order expired frame record_body put_le
    prepend_deadline db_delete append_to_log acknowledge header_for log_header prefix
header_fits = omega (arith, length-log_header)

Reach-cut_example :
    (groups : List (List WalRecord)) × (full : DbState trees) × (t : DbState trees) × (take
        compacted.wal_size compacted.file.content
      ≡ header_for format.cipher ++ log_of groups)
    × (apply_groups (apply trees format) (empty_state trees) groups ≡ ok full)
    × ((k : ℕ) (m : ℤ)
        → leb_ℤ (pos 50) m ≡ true
        → get trees compacted.state k m ≡ get trees full k m)
    × (apply_groups (apply trees format) (empty_state trees) (survivors 35 groups) ≡ ok t)
    × (reopened trees format
          (header_for format.cipher)
          (take (length (header_for format.cipher) + 35) compacted.file.content)
        ≡ recovered
            (apply trees format)
            t
            (total_size (survivors 35 groups))
            (total_size (survivors 35 groups) + parsed_past 35 groups))
Reach-cut_example =
    Reach-cut trees format number_codec-RoundTrips bytes_codec-RoundTrips ℕ_order-IsExact new_db
      new_log (pos 50) compacted 35 history header_fits
