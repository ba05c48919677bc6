-- ===== src/Db/Log.antt =====
-- The log of a database replays to its state. Every write keeps this.
pub mod Growth
pub mod Commit
pub mod Writes
use btypedb.Prelude.{
  ℕ, suc, ◌+◌, ◌%◌, ◌^◌, ◌≤◌, ◌<◌, ◌≡◌, refl, ap, ◌∙◌, sym, Bool, true, false, not, Option, none,
  some, List, [], ◌∷◌, ◌++◌, Result, ok, err, ◌>>=◌, >>=-eq-ok, Error, length, take, length-append,
  All, All-append, append-nil, append_assoc, arith, Bool-cases, Option-cases, Result-cases, inl,
  inr, ◌⊎◌, if◌then◌else◌, err-ne-ok, ◌==◌, take_all,
}
use btypedb.Prelude.Int.{ℤ, pos, IsInt64, ltb_ℤ}
use btypedb.Prelude.Order.{Order}
use btypedb.Bytes.{Bytes}
use btypedb.Wal.Record.{WalRecord, max_part_len}
use btypedb.Wal.Replay.Groups.{frames, group_bytes, IsGroup, IsMember, apply_all}
use btypedb.Wal.Replay.Crash.{log_of, apply_groups}
use btypedb.Wal.Replay.Append.{log_of-append, apply_groups-append}
use btypedb.State.{Trees, DbState, empty_state}
use btypedb.Db.Apply.{Format, apply_record}
use btypedb.Db.Replay.{forget}
use btypedb.Db.Handle.{
  Db, Io, WriteOutcome, wrote, cut_at, SyncPolicy, sync_always, sync_every_second, sync_never,
  appended, torn_append, maybe_auto_compact, write_log, wait_durable, lead,
}

module _ {K : Type 0} {o : Order K} {V : Type 0} (trees : Trees o V) (format : Format K V) where
  abbrev pub apply : DbState trees → WalRecord → Result (DbState trees)
  apply = apply_record trees format

  -- What the steps around an append leave alone.
  pub record Keeps (db db' : Db trees) : Type 0 where
    pub same_state : db'.state ≡ db.state
    pub same_content : db'.file.content ≡ db.file.content
    pub same_size : db'.wal_size ≡ db.wal_size
    pub still_clean : db'.write_err ≡ none → db.write_err ≡ none

  module _ (init : DbState trees) where
    -- `hdr` and then `groups`, which start from the state `init`, are the log up to `wal_size`; a failed append may have left more bytes
    -- behind that, and the database read-only.
    pub record HasLog (hdr : Bytes) (state : DbState trees) (content : Bytes) (wal_size : ℕ)
        (write_err : Option Error) : Type 0 where
      pub groups : List (List WalRecord)
      pub grouped : All IsGroup groups
      pub log_eq : take wal_size content ≡ hdr ++ log_of groups
      pub size_eq : wal_size ≡ length (hdr ++ log_of groups)
      pub size_le : wal_size ≤ length content
      pub clean : write_err ≡ none → length content ≡ wal_size
      pub applies : apply_groups apply (forget trees init) groups ≡ ok (forget trees state)

    abbrev pub IsDurableLog : Bytes → Db trees → Type 0
    IsDurableLog hdr db = HasLog hdr db.state db.file.content db.wal_size db.write_err

    pub Keeps-IsDurableLog :
        (hdr : Bytes) (db db' : Db trees)
        → Keeps db db'
        → IsDurableLog hdr db
        → IsDurableLog hdr db'
    Keeps-IsDurableLog hdr db db' k h = record {
      groups = h.groups;
      grouped = h.grouped;
      log_eq = rw (k.same_size, k.same_content) h.log_eq;
      size_eq = rw k.same_size h.size_eq;
      size_le = rw (k.same_size, k.same_content) h.size_le;
      clean = λ e. rw (k.same_size, k.same_content) (h.clean (k.still_clean e));
      applies = rw k.same_state h.applies;
    }

  pub maybe_auto_compact-Keeps : (db : Db trees) → Keeps db (maybe_auto_compact trees db)
  unfolding maybe_auto_compact
  maybe_auto_compact-Keeps db = record {
    same_state = ground arith;
    same_content = ground arith;
    same_size = ground arith;
    still_clean = λ e. ground arith;
  }

  pub lead-Keeps : (b : Bool) (db : Db trees) → Keeps db (lead trees b db)
  unfolding lead
  lead-Keeps b db = record {
    same_state = ground arith;
    same_content = ground arith;
    same_size = ground arith;
    still_clean = λ e. ground arith;
  }

  pub wait_durable-Keeps :
      (b : Bool) (seq : ℕ) (db : Db trees) → Keeps db (wait_durable trees b seq db).1
  unfolding wait_durable
  wait_durable-Keeps b seq db =
      let l = lead-Keeps b db in
      record {
        same_state = ground (arith, l.same_state);
        same_content = ground (arith, l.same_content);
        same_size = ground (arith, l.same_size);
        still_clean = λ e. ground (arith, l.still_clean);
      }
