-- ===== src/Db/Compact.antt =====
-- compact.go: the log rewritten as a snapshot of the live pairs and the commits made meanwhile. The
-- temporary file is its bytes; it is removed where a step fails, and nothing else reads it.
pub mod Agreement
pub mod Snapshot
pub mod Restored
pub mod Laws
use btypedb.Prelude.{
  ℕ, zero, suc, ◌+◌, ◌-◌, ◌%◌, ◌^◌, Bool, true, false, not, ◌&&◌, Option, none, some, List, [], ◌∷◌,
  ◌++◌, Result, ok, err, ◌>>=◌, Error, closed, io_failure, ltb, if◌then◌else◌, length, take, drop,
}
use btypedb.Prelude.Int.{ℤ, to_uint64}
use btypedb.Prelude.Order.{Order}
use btypedb.Bytes.{Bytes}
use btypedb.Wal.Record.{op_set, op_set_ttl, prepend_deadline}
use btypedb.Btype.Contract.{MapLib}
use btypedb.Encrypt.{append_sealed_record, header_for}
use btypedb.State.{Trees, DbState, expired}
use btypedb.Db.Apply.{Format}
use btypedb.Db.Handle.{
  Db, WriteOutcome, wrote, cut_at, can_write, no_error, keep_error, temp_file, synced_file, File,
  mark_durable,
}
use btypedb.Db.Replication.{Copied, copy_section}

-- What the outside answers during one call of `Compact`: the moment of the snapshot, the random
-- bytes of its nonces, and the system calls.
pub record CompactIo : Type 0 where
  pub now : ℤ
  pub rands : ℕ → Option Bytes
  pub create : Bool
  pub header : WriteOutcome
  pub snapshot : WriteOutcome
  pub tail : WriteOutcome
  pub sync : Bool
  pub rename : Bool

abbrev pub snap_op : Option ℤ → ℕ
snap_op none = op_set
snap_op (some dl) = op_set_ttl

abbrev pub snap_value : Option ℤ → Bytes → Bytes
snap_value none vb = vb
snap_value (some dl) vb = prepend_deadline (to_uint64 dl) vb

abbrev pub all_bytes : List Bytes → Bytes
all_bytes [] = []
all_bytes (r ∷ rs) = r ++ all_bytes rs

abbrev pub written : WriteOutcome → Result (Unit {0})
written wrote = ok tt
written (cut_at n) = err io_failure

module _ {K : Type 0} {o : Order K} {V : Type 0} (trees : Trees o V) (format : Format K V) where
  open format use {key_codec, val_codec, cipher}
  open trees use {data_map, ttl_map}

  -- The record of one pair; `rand` is what its nonce is made of.
  unfoldable pub snapshot_record : Option Bytes → Option ℤ → K → V → Result Bytes
  snapshot_record rand ttl k v = do
    kb ← key_codec.encode k
    vb ← val_codec.encode v
    append_sealed_record [] cipher rand (snap_op ttl) kb (snap_value ttl vb)

  -- The loop of `writeSnapshot`.
  unfoldable pub snapshot_records :
      (ℕ → Option Bytes) → DbState trees → ℤ → ℕ → List (K × V) → Result (List Bytes)
  unfolding snapshot_record
  snapshot_records rands snap now n [] = ok []
  snapshot_records rands snap now n ((k, v) ∷ l) =
      let skipped = snapshot_records rands snap now n l in
      let more = snapshot_records rands snap now (suc n) l in
      if expired trees snap k now then skipped else do
        rec ← snapshot_record (rands n) (ttl_map.get snap.ttl k) k v
        rest ← more
        ok (rec ∷ rest)

  unfoldable pub write_snapshot : CompactIo → DbState trees → Result Bytes
  unfolding snapshot_records
  write_snapshot io snap = do
    recs ← snapshot_records io.rands snap io.now 0 (data_map.items snap.pairs)
    _ ← written io.snapshot
    ok (all_bytes recs)

  -- The temporary file, before the writers pause.
  unfoldable pub stream : CompactIo → DbState trees → Result Bytes
  unfolding write_snapshot
  stream io snap =
      if not io.create
      then err io_failure
      else do _ ← written io.header; bytes ← write_snapshot io snap; ok (header_for cipher ++ bytes)

  abbrev pub swapped : Db trees → File → ℕ → Db trees
  swapped db f size = record db {
    file = f;
    wal_size = size;
    base_size = size;
    file_epoch = (db.file_epoch + 1) % 2 ^ 64;
  }

  -- `SyncDir` is best effort and answers nothing.
  abbrev pub synced_swap : CompactIo → Db trees → Bytes → ℕ → Result (Unit {0}) × Db trees
  synced_swap io db bytes size =
      let tmp = synced_file trees io.sync (temp_file trees bytes) in
      if not io.sync
      then (err io_failure, db)
      else if not io.rename
      then (err io_failure, db)
      else (ok tt, mark_durable trees (swapped db tmp size))

  -- Phase B: the tail that was written since `tail_start`, and the swap.
  unfoldable pub splice : CompactIo → Bytes → ℕ → Db trees → Result (Unit {0}) × Db trees
  unfolding mark_durable copy_section
  splice io bytes tail_start db = elim (can_write trees db) [
    | err e ↦ (err e, db)
    | ok _ ↦
        let tail_len = db.wal_size - tail_start in
        let copied = copy_section io.tail db.file.content tail_start tail_len in
        if ltb 0 tail_len
        then elim copied.failure [
          | some e ↦ (err e, db)
          | none ↦ synced_swap io db (bytes ++ copied.sent) (length bytes + tail_len)
        ]
        else synced_swap io db bytes (length bytes + tail_len)
  ]

  -- `during` is what the writers do to the database while the snapshot is streamed.
  unfoldable pub compact :
      CompactIo → (Db trees → Db trees) → Db trees → Result (Unit {0}) × Db trees
  unfolding stream splice
  compact io during db = elim (can_write trees db) [
    | err e ↦ (err e, db)
    | ok _ ↦ elim (stream io db.state) [
      | err e ↦ (err e, during db)
      | ok bytes ↦ splice io bytes db.wal_size (during db)
    ]
  ]

  -- What the goroutine of `maybeAutoCompact` does with the result of `Compact`.
  unfoldable pub auto_compacted : Result (Unit {0}) → Db trees → Db trees
  auto_compacted (ok _) db = record db { compacting = false }
  auto_compacted (err e) db = record db {
    compacting = false;
    compact_err = keep_error e db.compact_err;
  }
