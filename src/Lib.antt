-- ===== src/Lib.antt =====
-- btypedb: a verification library for the embedded key-value store btypedb (package btypedb, Go).
--
-- The program keeps all pairs in memory, in copy-on-write trees of the package btype, and logs each
-- change to one append-only file. Its parts, and the files that model them:
--
--   Bytes, Bytes/Crc     little-endian integers, and the CRC-32 of hash/crc32, written out.
--   Btype                what state.go uses of the package btype, as interfaces (Contract: TableLib for
--                        a table of items, MapLib for a map), with the laws that sorted trees have
--                        (Laws). Sorted is the reference, a sorted list; Sequences shows that sorted
--                        lists meet the interfaces; Filtered and Distinct are on filtered and on
--                        duplicate-free lists of items.
--   Wal                  wal.go. Wal/Record: appendRecord (append_record, frame) and the constants;
--                        Wal/Reader: readRecord over a bufio.Reader (Reader, with the end of the input
--                        as data); Wal/Replay: replayLog (replay_log), a batch collected by collect;
--                        Wal/Scan: scanForRecord. Their children hold the proofs.
--   Codec                codec.go.
--   Encrypt              encrypt.go: sealing (append_sealed_record), opening (open_record) and headers.
--   State                state.go: dbState (DbState, whose field `data` is `pairs`) with set, delete,
--                        get, expired and liveLen; State/Invariant for the mirrored deadlines,
--                        State/Indexes for the secondary indexes, State/Visible for what a read shows,
--                        State/Iteration for the pairs in order, State/LiveLen for the count of
--                        liveLen. State/Changes are sequences of sets and deletes: State/Invariants
--                        and State/Refinement are about these.
--   Tx                   tx.go and savepoint.go on the transaction itself: Tx, with writes (Tx),
--                        DeleteRange and reads (Tx/Ranges), savepoints (Tx/Savepoints) and what the
--                        pending bytes stand for (Tx/Log).
--   Db                   db.go, groupcommit.go and the part of tx.go that touches the database.
--                        Db/Apply: the callback of Open; Db/Handle: the fields of DB, canWrite,
--                        writeLog, appendToLog, waitDurable, Sync, backgroundSync, maybeAutoCompact;
--                        Db/Writes: Set, SetTTL, Delete; Db/Transactions: Begin, Commit, Rollback,
--                        Update, View, DeleteRange. Db/Log, Db/Durability, Db/Recovery,
--                        Db/Acknowledged and Db/Atomic hold the theorems.
--                        Db/Header: prepareHeader; Db/Open: Open; Db/Group: groupcommit.go once more,
--                        as a step relation for any number of committers, asleep and woken; Db/Sweep: sweepExpired of
--                        ttl.go. Db/Reads: Get, Contains, TTL and Len;
--                        Db/Iterators: All, Keys, Ascend, the other iterators and LiveLen.
--                        Db/Index: index.go; Db/Replication: replication.go; Db/Backup: backup.go and
--                        its temporary file; Db/Compact: compact.go. Db/Recoverable is what all of
--                        them keep: a log that replays to what the database shows; Db/Reach is the
--                        databases that any sequence of these operations leads to. Db/Options: the
--                        options, and Open from them on; Db/Close: Close and a round of sweepLoop.
--   Tests                concrete inputs for the theorems.
--
-- How they interact: a write encodes and seals a record (Codec, Encrypt), frames it (Wal/Record),
-- appends it (Db/Handle), changes the state (State) and waits for a sync (waitDurable). A transaction
-- does the first two steps on a copy of the state and Commit the others, for all its records as one
-- group. Open replays the file through Db/Apply. IsLogged (Tx/Log) ties a transaction to its pending
-- bytes, IsDurableLog (Db/Log) a database to its file, and IsSynced (Db/Durability) the counters of
-- groupcommit.go to the bytes on the disk.
--
-- Conventions: bytes are natural numbers, and byte strings lists of them. Machine integers are natural
-- numbers, or integers (Prelude/Int), with their wrap-around written out. An error is a constructor of
-- Error, without its text. What the outside answers during a call is an argument: the random bytes of a
-- nonce, and the answers of write and sync (Io), the time `now`. The bytes of a file that a power cut
-- leaves for sure are `durable`; any more of them may be left. A new file has none, until its sync
-- succeeds. A lock that is released before a function
-- returns is left out; writerMu, which a transaction holds, is a field. A pointer to a savepoint is a
-- number. Trees are values, so copy and release, which count references, have no counterpart.
--
-- Fuel: replay_loop takes one unit for each record, and replay_log gives it one more than the bytes of
-- the input, while a record takes 13 bytes at least. wait_loop gets two rounds, which is enough for a
-- committer that is alone. collect is recursion on the count of the batch header.
--
-- Parameters: the trees of btype (Trees), AEAD and HKDF (Aead, Crypto; AeadLaws is what the code relies
-- on), and the codecs of the user (Codec; RoundTrips is what Open relies on).
--
-- The name of an index is a text, its comparison a total preorder on values (Order), as CreateIndex asks
-- of its caller. What the writers do while Compact streams its snapshot is a function on the database,
-- `during`: Compact takes the lock only before and after. The follower of Db/Replication is a relation:
-- each range is asked for at the end of what was shipped.
--
-- Not modelled: the goroutines that Open starts and Close stops, and their timers; fs.go, which
-- only calls the system (the sync of a directory is best effort and answers nothing, and a temporary
-- file is removed where a step fails). A write goes to the end of the
-- file: where a failed Stat makes Open skip the truncation, what later writes put over the torn tail is
-- not followed. Committers that run at the same time are modelled in Db/Group
-- only, where a step is what happens under one lock, and `on_disk` is the last append that is on the
-- disk.
mod Prelude
pub mod Bytes
pub mod Btype
pub mod Wal
pub mod Codec
pub mod Encrypt
pub mod State
pub mod Db
pub mod Tx
pub mod Tests
