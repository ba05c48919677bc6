-- ===== src/Db/Open.antt =====
-- `Open` of db.go: from the bytes of a file to a database, or to an error. The cipher is part of the
-- format, and the background goroutines that `Open` starts are other moments.
pub mod Laws
pub mod Crash
use btypedb.Prelude.{
  ℕ, ◌+◌, Bool, true, false, not, ◌&&◌, Option, none, some, [], Result, ok, err, Error, io_failure,
  corrupt, ltb, if◌then◌else◌, length, take, drop,
}
use btypedb.Prelude.Order.{Order}
use btypedb.Bytes.{Bytes}
use btypedb.State.{Trees, DbState, empty_state}
use btypedb.Wal.Reader.{Reader, eof, broken}
use btypedb.Wal.Reader.Framing.{over}
use btypedb.Wal.Replay.{Replayed, replay_log}
use btypedb.Wal.Scan.{scan_for_record}
use btypedb.Db.Apply.{Format, apply_record}
use btypedb.Db.Handle.{Db, File, Options}
use btypedb.Db.Header.{OpenIo, prepare_header}

module _ {K : Type 0} {o : Order K} {V : Type 0} (trees : Trees o V) (format : Format K V) where
  abbrev pub fresh_handle : Options → DbState trees → File → ℕ → Db trees
  fresh_handle options state f size = record {
    options = options;
    state = state;
    file = f;
    wal_size = size;
    base_size = size;
    file_epoch = 0;
    append_seq = 0;
    is_closed = false;
    compacting = false;
    write_err = none;
    sync_err = none;
    compact_err = none;
    sweep_err = none;
    gsync = record { synced = 0; syncing = false; failure = none };
    writer_held = false;
  }

  -- `Truncate`: what was durable of the rest stays so.
  abbrev pub truncated : ℕ → File → File
  truncated n f = record {
    content = take n f.content;
    durable = if ltb n f.durable then n else f.durable;
  }

  -- The torn tail is cut off, if `Stat` says that there is one, and the file is ready for appends.
  unfoldable pub finish_open :
      OpenIo → Options → DbState trees → ℕ → File → Result (Db trees) × File
  finish_open io options state valid f =
      let cut = truncated valid f in
      if io.stat_valid && ltb valid (length f.content)
      then if not io.truncate_tail
        then (err io_failure, f)
        else if not io.seek_end
        then (err io_failure, cut)
        else (ok (fresh_handle options state cut valid), cut)
      else if not io.seek_end
      then (err io_failure, f)
      else (ok (fresh_handle options state f valid), f)

  abbrev pub is_intact : Option ℕ → Bool
  is_intact none = false
  is_intact (some _) = true

  -- A torn tail, or damage in front of an intact record. A record is looked for only if bytes are
  -- left that were not parsed, and if the caller did not ask for truncation.
  unfoldable pub check_tail :
      OpenIo → Bool → Options → DbState trees → ℕ → ℕ → File → Result (Db trees) × File
  check_tail io truncate_at_corrupt options state valid parsed f =
      if io.stat_parsed && (ltb parsed (length f.content) && not truncate_at_corrupt)
      then if not io.read_tail
        then (err io_failure, f)
        else if is_intact (scan_for_record (drop parsed f.content))
        then (err corrupt, f)
        else finish_open io options state valid f
      else finish_open io options state valid f

  abbrev pub on_replayed :
      OpenIo → Bool → Options → ℕ → File → Replayed (DbState trees) → Result (Db trees) × File
  on_replayed io truncate_at_corrupt options start f x = elim x.error [
    | some e ↦ (err e, f)
    | none ↦
        check_tail io truncate_at_corrupt options x.state (x.valid_len + start)
          (x.parsed_len + start) f
  ]

  -- What the replay reads: the file to its end, or some bytes in front of a read that fails.
  abbrev pub replay_input : Option ℕ → Bytes → Reader
  replay_input none bytes = over eof bytes
  replay_input (some n) bytes = over broken (take n bytes)

  abbrev pub replayed_from : OpenIo → ℕ → File → Option (Replayed (DbState trees))
  replayed_from io start f =
      replay_log (apply_record trees format) (empty_state trees)
        (replay_input io.replay_fails (drop start f.content))

  abbrev pub on_header :
      OpenIo → Bool → Options → Result ℕ × File → Option (Result (Db trees) × File)
  on_header io truncate_at_corrupt options (err e, f) = some (err e, f)
  on_header io truncate_at_corrupt options (ok start, f) =
      if not io.seek_records then some (err io_failure, f) else elim (replayed_from io start f) [
        | none ↦ none
        | some x ↦ some (on_replayed io truncate_at_corrupt options start f x)
      ]

  -- `none` is fuel that ran out, which does not happen.
  unfoldable pub open_db : OpenIo → Bool → Options → File → Option (Result (Db trees) × File)
  open_db io truncate_at_corrupt options f =
      on_header io truncate_at_corrupt options (prepare_header io format.cipher f)
