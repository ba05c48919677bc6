-- ===== src/Db/Compact/Laws.antt =====
-- A compacted log replays to a state that shows what the database shows.
use btypedb.Prelude.{
  ℕ, zero, suc, ◌+◌, ◌-◌, ◌%◌, ◌^◌, ◌≤◌, ◌≡◌, refl, ◌∙◌, sym, ap, false, ltb, List, [], ◌++◌, ok,
  err, arith, Error, ◌⊎◌, Result-cases, inl, inr, length, take, drop, All, All-append, take-add,
  take_all, append_assoc, append-nil, drop-length_append, length-take, length-append,
}
use btypedb.Prelude.Int.{ℤ}
use btypedb.Prelude.Order.{Order, IsExact}
use btypedb.Bytes.{Bytes}
use btypedb.Wal.Record.{max_part_len}
use btypedb.Wal.Replay.Groups.{IsGroup}
use btypedb.Wal.Replay.Crash.{log_of}
use btypedb.Wal.Replay.Append.{log_of-append, apply_groups-append}
use btypedb.Codec.{RoundTrips}
use btypedb.Encrypt.{header_for}
use btypedb.Encrypt.Laws.{IsSound}
use btypedb.State.{Trees, DbState, empty_state, get, expired}
use btypedb.State.Reads.{ttl_of}
use btypedb.Tx.Ranges.{unexpired}
use btypedb.Db.Apply.{Format}
use btypedb.Db.Replay.{forget}
use btypedb.Db.Handle.{Db, can_write, mark_durable}
use btypedb.Db.Log.{apply, IsDurableLog}
use btypedb.Db.Recoverable.{IsRecoverable}
use btypedb.Db.Replication.{copy_section}
use btypedb.Db.Compact.{
  CompactIo, compact, splice, stream, write_snapshot, snapshot_records, all_bytes,
}
use btypedb.Db.Compact.Agreement.{apply_groups-Agrees}
use btypedb.Db.Compact.Snapshot.{IsDeadline, restored, snapshot_records-Restores}
use btypedb.Db.Compact.Restored.{restored-Agrees}

module _ {K : Type 0} {o : Order K} {V : Type 0} (trees : Trees o V) (format : Format K V) where
  open format use {key_codec, val_codec, cipher}
  open trees use {data_map}

  no_tail : (n : ℕ) (bytes : Bytes) → ltb 0 n ≡ false → take n bytes ≡ []
  no_tail zero bytes h = refl
  no_tail (suc n) bytes h = absurd (ground (arith, h))

  -- What a splice that succeeds leaves.
  record IsSpliced (bytes : Bytes) (from : ℕ) (db db' : Db trees) : Type 0 where
    content_eq : db'.file.content ≡ bytes ++ take (db.wal_size - from) (drop from db.file.content)
    durable_eq : db'.file.durable ≡ length db'.file.content
    same_state : db'.state ≡ db.state
    epoch_eq : db'.file_epoch ≡ (db.file_epoch + 1) % 2 ^ 64
    size_eq : db'.wal_size ≡ length bytes + (db.wal_size - from)

  splice-IsSpliced :
      (io : CompactIo) (bytes : Bytes) (from : ℕ) (db : Db trees)
      → (splice trees format io bytes from db).0 ≡ ok tt
      → IsSpliced bytes from db (splice trees format io bytes from db).1
  unfolding splice copy_section mark_durable
  splice-IsSpliced io bytes from db h = record {
    content_eq =
        ground
          (arith, h, no_tail (db.wal_size - from) (drop from db.file.content), append-nil bytes);
    durable_eq = ground (arith, h);
    same_state = ground (arith, h);
    epoch_eq = ground (arith, h);
    size_eq = ground (arith, h);
  }

  stream-ok :
      (io : CompactIo) (snap : DbState trees) (bytes : Bytes)
      → stream trees format io snap ≡ ok bytes
      → (recs : List Bytes) × (snapshot_records trees format io.rands snap io.now 0
            (data_map.items snap.pairs)
          ≡ ok recs)
        × (bytes ≡ header_for cipher ++ all_bytes recs)
  unfolding stream write_snapshot
  stream-ok io snap bytes e =
      let records =
        snapshot_records trees format io.rands snap io.now 0 (data_map.items snap.pairs) in
      elim (Result-cases records) [
        | inl (recs, r) ↦ (recs, r, ground (arith, e, r))
        | inr (x, r) ↦ absurd (ground (arith, e, r))
      ]

  -- What a successful compaction leaves, against the database that the writers left.
  pub record IsCompacted (now : ℤ) (db db' : Db trees) : Type 0 where
    pub recoverable : IsRecoverable trees format (header_for cipher) now db'
    pub durable_eq : db'.file.durable ≡ length db'.file.content
    pub same_state : db'.state ≡ db.state
    pub epoch_eq : db'.file_epoch ≡ (db.file_epoch + 1) % 2 ^ 64

  module _ (exact : IsExact o) (key_round : RoundTrips key_codec) (val_round : RoundTrips val_codec)
      (io : CompactIo) (sound : (n : ℕ) → IsSound cipher (io.rands n)) (db0 db : Db trees)
      (size : db0.wal_size ≤ length db0.file.content)
      (since : IsDurableLog trees format db0.state (take db0.wal_size db0.file.content) db)
      (deadlines : (k : K) → IsDeadline (ttl_of trees db0.state k)) where
    -- What was appended since the snapshot is a log of its own.
    tail-log_of :
        take (db.wal_size - db0.wal_size) (drop db0.wal_size db.file.content) ≡ log_of since.groups
    tail-log_of =
        let start = take db0.wal_size db0.file.content in
        let len : length start ≡ db0.wal_size =
          omega (arith, size, length-take db0.wal_size db0.file.content) in
        let grown : db0.wal_size ≤ db.wal_size =
          omega (arith, len, since.size_eq, length-append start (log_of since.groups)) in
        let sum : db0.wal_size + (db.wal_size - db0.wal_size) ≡ db.wal_size = omega arith in
        let parts : take db0.wal_size db.file.content
              ++ take (db.wal_size - db0.wal_size) (drop db0.wal_size db.file.content)
            ≡ start ++ log_of since.groups =
          sym (take-add db0.wal_size (db.wal_size - db0.wal_size) db.file.content)
          ∙ ap (λ (n : ℕ). take n db.file.content) sum
          ∙ since.log_eq in
        let front : length (take db0.wal_size db.file.content) ≡ length start =
          omega (arith, len, grown, since.size_le, length-take db0.wal_size db.file.content) in
        sym (drop-length_append (take db0.wal_size db.file.content) _)
        ∙ ap (drop (length (take db0.wal_size db.file.content))) parts
        ∙ ap (λ (n : ℕ). drop n (start ++ log_of since.groups)) front
        ∙ drop-length_append start (log_of since.groups)

    splice-IsCompacted :
        (bytes : Bytes)
        → ((recs : List Bytes)
            → snapshot_records trees format io.rands db0.state io.now 0
                (data_map.items db0.state.pairs)
              ≡ ok recs
            → All (λ b. length b ≤ max_part_len) recs)
        → stream trees format io db0.state ≡ ok bytes
        → (splice trees format io bytes db0.wal_size db).0 ≡ ok tt
        → IsCompacted io.now db (splice trees format io bytes db0.wal_size db).1
    unfolding get expired
    splice-IsCompacted bytes small streamed good =
        let s = splice-IsSpliced io bytes db0.wal_size db good in
        let db' = (splice trees format io bytes db0.wal_size db).1 in
        let (recs, made, image) = stream-ok io db0.state bytes streamed in
        let r =
          snapshot_records-Restores trees format key_round val_round io.rands sound db0.state
            deadlines io.now 0 (data_map.items db0.state.pairs) recs made (small recs made) in
        let tail = since.groups in
        let start =
          restored trees format db0.state (empty_state trees)
            (unexpired trees db0.state io.now (data_map.items db0.state.pairs)) in
        let (t, also, near) =
          apply_groups-Agrees trees io.now format tail (forget trees db0.state) start
            (forget trees db.state) (restored-Agrees trees format db0.state deadlines exact io.now)
            since.applies in
        let content : db'.file.content ≡ header_for cipher ++ log_of (r.groups ++ tail) =
          s.content_eq
          ∙ rw (
            image,
            tail-log_of,
            r.bytes_eq,
            log_of-append r.groups tail,
            append_assoc (header_for cipher) (log_of r.groups) (log_of tail),
          ) in
        let size_eq : db'.wal_size ≡ length db'.file.content = omega (
          arith,
          s.size_eq,
          ap length s.content_eq,
          ap length tail-log_of,
          length-append bytes (log_of tail),
          length-append bytes
              (take (db.wal_size - db0.wal_size) (drop db0.wal_size db.file.content)),
          since.size_eq,
          length-append (take db0.wal_size db0.file.content) (log_of tail),
          length-take db0.wal_size db0.file.content,
          size,
        ) in
        record {
          recoverable = record {
            groups = r.groups ++ tail;
            replayed = t;
            grouped = All-append IsGroup r.groups tail r.grouped since.grouped;
            log_eq = take_all db'.wal_size db'.file.content (omega (arith, size_eq)) ∙ content;
            size_le = omega (arith, size_eq);
            clean = λ _. sym size_eq;
            applies =
                apply_groups-append (apply trees format) r.groups tail (empty_state trees) start
                  (r.applies (empty_state trees))
                ∙ also;
            agrees = rw s.same_state near;
          };
          durable_eq = s.durable_eq;
          same_state = s.same_state;
          epoch_eq = s.epoch_eq;
        }

  -- A Compact that succeeds leaves a synced file whose log, up to walSize, is the header and then
  -- commits, and replays to a state that shows what the database shows, of every key and at every
  -- moment from that of the snapshot on: the writes that the writers made while it ran are in it; its
  -- epoch is the next. It needs that walSize is at most the length of the file, that the log since the
  -- snapshot replays from the frozen state to theirs, codecs that round-trip, a lawful cipher,
  -- deadlines that are positive int64, an order of keys that tells unequal keys apart, and records of
  -- the snapshot within the size that replay accepts.
  pub compact-IsCompacted :
      (exact : IsExact o) (key_round : RoundTrips key_codec) (val_round : RoundTrips val_codec)
      (io : CompactIo) (sound : (n : ℕ) → IsSound cipher (io.rands n))
      (during : Db trees → Db trees) (db : Db trees)
      → db.wal_size ≤ length db.file.content
      → IsDurableLog trees format db.state (take db.wal_size db.file.content) (during db)
      → ((k : K) → IsDeadline (ttl_of trees db.state k))
      → ((recs : List Bytes)
          → snapshot_records trees format io.rands db.state io.now 0 (data_map.items db.state.pairs)
            ≡ ok recs
          → All (λ b. length b ≤ max_part_len) recs)
      → (compact trees format io during db).0 ≡ ok tt
      → IsCompacted io.now (during db) (compact trees format io during db).1
  unfolding compact
  compact-IsCompacted exact key_round val_round io sound during db size since deadlines small good =
      elim (Result-cases (can_write trees db)) [
        | inr (x, e) ↦ cc (rw (compact, e) at good)
        | inl (u, e) ↦ elim (Result-cases (stream trees format io db.state)) [
          | inr (x, streamed) ↦ cc (rw (compact, e, streamed) at good)
          | inl (bytes, streamed) ↦
              rw (compact, e, streamed)
                (splice-IsCompacted exact key_round val_round io sound db (during db) size since
                  deadlines bytes small streamed (rw (compact, e, streamed) at good))
        ]
      ]

  -- A Compact that fails, at any step, leaves the database as the writers left it, its file and its
  -- epoch included, or, where it failed before the snapshot, as it was.
  pub compact_err :
      (io : CompactIo) (during : Db trees → Db trees) (db : Db trees) (x : Error)
      → (compact trees format io during db).0 ≡ err x
      → ((compact trees format io during db).1 ≡ during db)
        ⊎ ((compact trees format io during db).1 ≡ db)
  unfolding compact splice copy_section
  compact_err io during db x bad = ground (arith, bad)
