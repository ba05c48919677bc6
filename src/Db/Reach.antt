-- ===== src/Db/Reach.antt =====
-- The databases that any sequence of operations leads to, compactions included.
pub mod Kept
pub mod Laws
use Prim.Native.String.{String}
use text.Mathlib.Text.{◌==◌}
use btypedb.Prelude.{
  ℕ, ◌+◌, ◌≤◌, ◌<◌, ◌^◌, ◌≡◌, refl, sym, subst, Bool, true, none, some, Option, List, ok, err, take,
  length, All, inl, inr, Result-cases, arith, false, Result, if◌then◌else◌,
}
use btypedb.Prelude.Int.{ℤ, leb_ℤ, IsInt64}
use btypedb.Prelude.Order.{Order, IsExact}
use btypedb.Bytes.{Bytes}
use btypedb.Wal.Record.{WalRecord, max_part_len}
use btypedb.Wal.Replay.Crash.{recovered}
use btypedb.Codec.{RoundTrips}
use btypedb.Encrypt.{header_for}
use btypedb.Encrypt.Laws.{IsSound}
use btypedb.State.{Trees, DbState, Index, empty_state, get}
use btypedb.State.Reads.{ttl_of}
use btypedb.Tx.{Tx}
use btypedb.Tx.Log.{IsLogged}
use btypedb.Db.Apply.{Format}
use btypedb.Db.Handle.{Db, Io, sync, background_sync, mark_durable}
use btypedb.Db.Writes.{db_set_internal, db_delete}
use btypedb.Db.Transactions.{commit, rollback}
use btypedb.Db.Index.{create_index, drop_index, with_idx, idx_get, is_there}
use btypedb.Db.Log.{apply, IsDurableLog, Keeps, Keeps-IsDurableLog}
use btypedb.Db.Log.Commit.{commit-IsDurableLog}
use btypedb.Db.Log.Writes.{db_set_internal-IsDurableLog, db_delete-IsDurableLog}
use btypedb.Db.Recovery.{reopened}
use btypedb.Db.Recoverable.{
  IsRecoverable, IsDurableLog-IsRecoverable, since_now, continued-IsRecoverable,
  later-IsRecoverable, IsRecoverable-reopened,
}
use btypedb.Db.Compact.{CompactIo, compact, snapshot_records}
use btypedb.Db.Compact.Snapshot.{IsDeadline}
use btypedb.Db.Compact.Laws.{compact-IsCompacted, compact_err}

module _ {K : Type 0} {o : Order K} {V : Type 0} (trees : Trees o V) (format : Format K V) where
  open format use {key_codec, val_codec, cipher}

  -- One operation, whatever the system answers, with what its caller and the format owe to it: a
  -- deadline that is an int64, a cipher that opens what it sealed, records within the size that
  -- replay accepts, and a transaction that was begun on this state.
  pub data Operation : Db trees → Db trees → Type 0 where
    sets :
        (io : Io) (db : Db trees) (key : K) (value : V) (d : ℤ)
        → IsInt64 d
        → IsSound cipher io.rand
        → length (db_set_internal trees format io db key value d).1.file.content
          ≤ length db.file.content + max_part_len
        → Operation db (db_set_internal trees format io db key value d).1
    deletes :
        (io : Io) (now : ℤ) (db : Db trees) (key : K)
        → length (db_delete trees format io now db key).1.file.content
          ≤ length db.file.content + max_part_len
        → Operation db (db_delete trees format io now db key).1
    begins : (db : Db trees) → Operation db (record db { writer_held = true })
    commits :
        (io : Io) (tx : Tx trees) (db : Db trees)
        → IsLogged trees format db.state tx
        → tx.nops < 2 ^ 64
        → Operation db (commit trees io tx db).1
    rolls_back : (tx : Tx trees) (db : Db trees) → Operation db (rollback trees tx db)
    creates_index :
        (name : String) (compare : Option (Order (K × V))) (db : Db trees)
        → Operation db (create_index trees name compare db).1
    drops_index : (name : String) (db : Db trees) → Operation db (drop_index trees name db).1
    syncs : (b : Bool) (db : Db trees) → Operation db (sync trees b db).1
    syncs_behind : (b : Bool) (db : Db trees) → Operation db (background_sync trees b db)

  -- What the writers do from one moment on, one operation after the other.
  pub data Operations (db0 : Db trees) : Db trees → Type 0 where
    start : Operations db0 db0
    goes : (db db' : Db trees) → Operations db0 db → Operation db db' → Operations db0 db'

  -- What one call of `Compact` needs: deadlines that are positive int64, a cipher that opens what it
  -- sealed, and records within the size that replay accepts.
  pub record Compactable (io : CompactIo) (db : Db trees) : Type 0 where
    pub sound : (n : ℕ) → IsSound cipher (io.rands n)
    pub deadlines : (k : K) → IsDeadline (ttl_of trees db.state k)
    pub small :
        (recs : List Bytes)
        → snapshot_records trees format io.rands db.state io.now 0
            (trees.data_map.items db.state.pairs)
          ≡ ok recs
        → All (λ b. length b ≤ max_part_len) recs

  -- The databases that operations lead to from one that was opened, and the moment of the last
  -- compaction; clocks do not go back between two compactions.
  pub data Reach (init : Db trees) : ℤ → Db trees → Type 0 where
    from_open : (now : ℤ) → Reach init now init
    steps :
        (now : ℤ) (db db' : Db trees) → Reach init now db → Operation db db' → Reach init now db'
    compacts :
        (now : ℤ) (io : CompactIo) (during : Db trees → Db trees) (db : Db trees)
        → Reach init now db
        → leb_ℤ now io.now ≡ true
        → Compactable io db
        → Operations db (during db)
        → Reach init io.now (compact trees format io during db).1
