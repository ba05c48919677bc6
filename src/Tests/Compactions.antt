-- ===== src/Tests/Compactions.antt =====
-- The theorem on compaction at a concrete input: a key is deleted while its snapshot is streamed.
use Prim.Native.Nat.{Ordering, compare}
use btypedb.Prelude.{
  ℕ, ◌≤◌, ◌≡◌, refl, subst, true, none, some, List, [], ◌∷◌, ok, length, take, All, arith,
}
use btypedb.Prelude.Int.{ℤ, pos, to_uint64}
use btypedb.Prelude.Order.{ℕ_order}
use btypedb.Bytes.{Bytes, put_le}
use btypedb.Btype.Sorted.{find, place, remove}
use btypedb.Btype.Contract.{value}
use btypedb.Codec.{bytes_codec}
use btypedb.Wal.Record.{
  frame, record_body, append_record, prepend_deadline, max_part_len, length-frame_of,
}
use btypedb.Encrypt.{log_header, append_sealed_record}
use btypedb.State.{set, expired}
use btypedb.State.Reads.{ttl_of}
use btypedb.Db.Handle.{
  Db, wrote, can_write, write_log, wait_durable, lead, append_to_log, mark_durable,
}
use btypedb.Db.Transactions.{commit}
use btypedb.Db.Writes.{db_delete, acknowledge}
use btypedb.Db.Log.{IsDurableLog}
use btypedb.Db.Log.Writes.{db_delete-IsDurableLog}
use btypedb.Db.Recoverable.{since_now, IsDurableLog-IsRecoverable}
use btypedb.Db.Replication.{copy_section}
use btypedb.Db.Compact.{
  CompactIo, compact, stream, splice, write_snapshot, snapshot_records, snapshot_record,
}
use btypedb.Db.Compact.Snapshot.{IsDeadline}
use btypedb.Db.Compact.Laws.{IsCompacted, compact-IsCompacted}
use btypedb.Tests.Setup.{
  trees, format, good_io, number_codec-RoundTrips, bytes_codec-RoundTrips, ℕ_order-IsExact,
}
use btypedb.Tests.States.{value_seven, first_record}
use btypedb.Tests.Commits.{committed, committed-log, delete_small}

abbrev pub compact_io : CompactIo
compact_io = record {
  now = pos 50;
  rands = λ n. none;
  create = true;
  header = wrote;
  snapshot = wrote;
  tail = wrote;
  sync = true;
  rename = true;
}

abbrev pub deleting : Db trees → Db trees
deleting db = (db_delete trees format good_io (pos 50) db 4).1

deleted-log :
    IsDurableLog trees format committed.1.state
      (take committed.1.wal_size committed.1.file.content)
      (deleting committed.1)
deleted-log =
    db_delete-IsDurableLog trees format committed.1.state
      (take committed.1.wal_size committed.1.file.content) good_io committed.1
      (since_now trees format log_header (pos 50) committed.1
        (IsDurableLog-IsRecoverable trees format (pos 50) log_header committed.1 committed-log))
      (pos 50) 4 number_codec-RoundTrips delete_small

pub deadlines : (k : ℕ) → IsDeadline (ttl_of trees committed.1.state k)
unfolding commit can_write write_log wait_durable lead set find place remove ℕ_order frame
    record_body put_le prepend_deadline
deadlines k = go (compare k 4)
  where
    go :
        (c : Ordering)
        → IsDeadline (
            value {K = ℕ} {V = ℤ} (elim c [
              | Ordering.lt ↦ none
              | Ordering.eq ↦ some (4, pos 100)
              | Ordering.gt ↦ none
            ]))
    go Ordering.lt = tt
    go Ordering.eq = (refl, omega arith)
    go Ordering.gt = tt

made :
    snapshot_records trees format
      (λ n. none)
      committed.1.state
      (pos 50)
      0
      (trees.data_map.items committed.1.state.pairs)
    ≡ ok (first_record ∷ [])
unfolding snapshot_records snapshot_record append_sealed_record append_record to_uint64 bytes_codec
    commit can_write write_log wait_durable lead set find place remove ℕ_order expired frame
    record_body put_le prepend_deadline
made = refl

length-first_record : length first_record ≤ max_part_len
unfolding prepend_deadline put_le
length-first_record = omega (
  arith,
  length-frame_of (record { op = 4; key = put_le 8 4; val = prepend_deadline 100 value_seven }),
)

pub records_small :
    (recs : List Bytes)
    → snapshot_records trees format
        (λ n. none)
        committed.1.state
        (pos 50)
        0
        (trees.data_map.items committed.1.state.pairs)
      ≡ ok recs
    → All (λ b. length b ≤ max_part_len) recs
records_small recs e =
    let same_recs : first_record ∷ [] ≡ recs = cc (made, e) in
    subst (All (λ b. length b ≤ max_part_len)) same_recs (length-first_record, tt)

compacted_ok : (compact trees format compact_io deleting committed.1).0 ≡ ok tt
unfolding compact stream splice write_snapshot mark_durable copy_section snapshot_records
    snapshot_record append_sealed_record append_record to_uint64 bytes_codec commit can_write
    write_log wait_durable lead set find place remove ℕ_order expired frame record_body put_le
    prepend_deadline db_delete append_to_log acknowledge
compacted_ok = refl

compact-IsCompacted_example :
    IsCompacted trees format
      (pos 50)
      (deleting committed.1)
      (compact trees format compact_io deleting committed.1).1
compact-IsCompacted_example =
    compact-IsCompacted trees format ℕ_order-IsExact number_codec-RoundTrips bytes_codec-RoundTrips
      compact_io (λ n. tt) deleting committed.1 committed-log.size_le deleted-log deadlines
      records_small compacted_ok
