-- ===== src/Db/Handle.antt =====
-- The handle of db.go, its log and its durability. Locks are released where a function returns, so
-- only `writerMu`, which a transaction holds between calls, is a field.
use btypedb.Prelude.{
  ℕ, zero, suc, ◌+◌, ◌%◌, ◌^◌, Bool, true, false, not, ◌||◌, Option, none, some, [], ◌++◌, Result,
  ok, err, Error, closed, io_failure, ltb, leb, if◌then◌else◌, length, take,
}
use btypedb.Prelude.Int.{ℤ, pos, ltb_ℤ, ◌-ℤ◌, ◌*ℤ◌, quot, wrap_int64}
use btypedb.Prelude.Order.{Order}
use btypedb.Bytes.{Bytes}
use btypedb.State.{Trees, DbState}
use btypedb.Db.Apply.{Format}
use btypedb.Encrypt.{append_sealed_record}

pub data SyncPolicy : Type 0 where
  sync_always sync_every_second sync_never : SyncPolicy

-- The log file: its bytes, and how many of them a power cut leaves for sure.
pub record File : Type 0 where
  pub content : Bytes
  pub durable : ℕ

-- What the system did with one write: all of it, or a failure behind some of the bytes.
pub data WriteOutcome : Type 0 where
  wrote : WriteOutcome
  cut_at : ℕ → WriteOutcome

-- What the outside answers during one call: the random bytes of a nonce, and the system calls.
pub record Io : Type 0 where
  pub rand : Option Bytes
  pub write : WriteOutcome
  pub sync_ok : Bool

pub record GroupSync : Type 0 where
  pub synced : ℕ
  pub syncing : Bool
  pub failure : Option Error  -- `err`

pub record Options : Type 0 where
  pub policy : SyncPolicy
  pub auto_compact : Bool
  pub compact_min_size : ℤ
  pub compact_growth_pct : ℤ

-- The background goroutines keep their first error, and take no notice of ErrClosed.
abbrev keep_first : Option Error → Error → Option Error
keep_first none e = some e
keep_first (some old) e = some old

abbrev pub keep_error : Error → Option Error → Option Error
keep_error closed old = old
keep_error e old = keep_first old e

module _ {K : Type 0} {o : Order K} {V : Type 0} (trees : Trees o V) where
  pub record Db : Type 0 where
    pub options : Options
    pub state : DbState trees
    pub file : File
    pub wal_size : ℕ
    pub base_size : ℕ
    pub file_epoch : ℕ
    pub append_seq : ℕ
    pub is_closed : Bool  -- `closed`
    pub compacting : Bool
    pub write_err : Option Error
    pub sync_err : Option Error
    pub compact_err : Option Error
    pub sweep_err : Option Error
    pub gsync : GroupSync
    pub writer_held : Bool  -- `writerMu`

  abbrev pub no_error : Option Error → Result (Unit {0})
  no_error none = ok tt
  no_error (some e) = err e

  unfoldable pub can_write : Db → Result (Unit {0})
  can_write db = if db.is_closed then err closed else no_error db.write_err

  abbrev is_set : Option Error → Bool
  is_set none = false
  is_set (some _) = true

  -- The sizes are int64, and so is their product. The background compaction that this starts is `Compact` of another moment.
  unfoldable pub maybe_auto_compact : Db → Db
  maybe_auto_compact db =
      if not db.options.auto_compact || (db.compacting || (db.is_closed || is_set db.write_err))
      then db
      else if ltb_ℤ (pos db.wal_size) db.options.compact_min_size
      then db
      else if ltb_ℤ (pos db.wal_size -ℤ pos db.base_size)
          (quot (wrap_int64 (pos db.base_size *ℤ db.options.compact_growth_pct)) 100)
      then db
      else record db { compacting = true }

  abbrev landed : Bytes → WriteOutcome → Bytes
  landed buf wrote = buf
  landed buf (cut_at n) = take n buf

  abbrev file_append : File → Bytes → File
  file_append f bytes = record f { content = f.content ++ bytes }

  abbrev pub appended : Db → Bytes → Db
  appended db buf = record db {
    file = file_append db.file buf;
    append_seq = (db.append_seq + 1) % 2 ^ 64;
    wal_size = db.wal_size + length buf;
  }

  -- A failed append leaves what landed of it, and the database read-only.
  abbrev pub torn_append : Db → Bytes → Db
  torn_append db bytes = record db { file = file_append db.file bytes; write_err = some io_failure }

  unfoldable pub write_log : WriteOutcome → Db → Bytes → Result (Unit {0}) × Db
  unfolding maybe_auto_compact
  write_log wrote db buf = (ok tt, maybe_auto_compact (appended db buf))
  write_log (cut_at n) db buf = (err io_failure, torn_append db (take n buf))

  unfoldable pub append_to_log : Format K V → Io → Db → ℕ → Bytes → Bytes → Result (Unit {0}) × Db
  append_to_log format io db op key val =
      elim (append_sealed_record [] format.cipher io.rand op key val) [
        | ok buf ↦ write_log io.write db buf
        | err e ↦ (err e, db)
      ]

  unfoldable pub mark_durable : Db → Db
  mark_durable db =
      if ltb db.gsync.synced db.append_seq
      then record db { gsync = record db.gsync { synced = db.append_seq } }
      else db

  abbrev pub fsync : File → File
  fsync f = record f { durable = length f.content }

  -- A new file: nothing of it is on the disk for sure, until a sync of it succeeds.
  abbrev pub temp_file : Bytes → File
  temp_file bytes = record { content = bytes; durable = 0 }

  abbrev pub synced_file : Bool → File → File
  synced_file sync_ok f = if sync_ok then fsync f else f

  -- One round of a leader: sync, and publish what it covers.
  abbrev lead_closed : Db → Db
  lead_closed db = record db { gsync = record db.gsync { failure = some closed } }

  abbrev lead_failed : Db → Db
  lead_failed db = record db {
    write_err = elim db.write_err [ none ↦ some io_failure | some e ↦ some e ];
    gsync = record db.gsync { failure = some io_failure };
  }

  abbrev lead_synced : Db → Db
  lead_synced db = record db {
    file = fsync db.file;
    gsync = record db.gsync {
      synced = if ltb db.gsync.synced db.append_seq then db.append_seq else db.gsync.synced;
    };
  }

  unfoldable pub lead : Bool → Db → Db
  lead sync_ok db =
      if db.is_closed then lead_closed db else if sync_ok then lead_synced db else lead_failed db

  -- `waitDurable` with no other committer at work: at most one round, as the leader.
  abbrev pub must_wait : ℕ → Db → Bool
  must_wait seq db = if ltb db.gsync.synced seq then not (is_set db.gsync.failure) else false

  abbrev pub verdict : ℕ → Db → Result (Unit {0})
  verdict seq db =
      if leb seq db.gsync.synced
      then ok tt
      else elim db.gsync.failure [ none ↦ err io_failure | some e ↦ err e ]

  -- The loop of `waitDurable`; `none` is fuel that ran out.
  unfoldable pub wait_loop : ℕ → Bool → ℕ → Db → Option (Result (Unit {0}) × Db)
  wait_loop zero sync_ok seq db = none
  wait_loop (suc fuel) sync_ok seq db =
      let again = wait_loop fuel sync_ok seq (lead sync_ok db) in
      if must_wait seq db then again else some (verdict seq db, db)

  -- The same in one step: a committer that is alone leads one round at most.
  unfoldable pub wait_durable : Bool → ℕ → Db → Result (Unit {0}) × Db
  wait_durable sync_ok seq db = elim db.options.policy [
    | sync_always ↦
        if must_wait seq db
        then (verdict seq (lead sync_ok db), lead sync_ok db)
        else (verdict seq db, db)
    | sync_every_second ↦ (ok tt, db)
    | sync_never ↦ (ok tt, db)
  ]

  -- `Sync`
  unfoldable pub sync : Bool → Db → Result (Unit {0}) × Db
  unfolding mark_durable
  sync sync_ok db =
      if db.is_closed
      then (err closed, db)
      else if sync_ok
      then (ok tt, mark_durable (record db { file = fsync db.file }))
      else (err io_failure, db)

  -- A round of `backgroundSync`.
  unfoldable pub background_sync : Bool → Db → Db
  background_sync sync_ok db =
      if db.is_closed
      then db
      else if sync_ok
      then record db { file = fsync db.file }
      else record db { sync_err = elim db.sync_err [ none ↦ some io_failure | some e ↦ some e ] }
