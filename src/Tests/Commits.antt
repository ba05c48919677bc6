-- ===== src/Tests/Commits.antt =====
-- The theorems on the handle, its log and its transactions at concrete inputs.
use btypedb.Prelude.{
  ℕ, ◌+◌, ◌^◌, ◌≤◌, ◌≡◌, refl, ap, ◌∙◌, sym, true, false, some, List, [], ◌∷◌, ◌++◌, Result, ok,
  length, take, arith, append-nil, take_all, length-append,
}
use btypedb.Prelude.Int.{pos}
use btypedb.Bytes.{put_le, length-put_le, checksum}
use btypedb.Prelude.Order.{ℕ_order}
use btypedb.Btype.Sorted.{find, place}
use btypedb.Codec.{bytes_codec}
use btypedb.Wal.Record.{
  WalRecord, append_record, frame, frame_of, length-frame_of, record_body, prepend_deadline,
}
use btypedb.Wal.Replay.Crash.{total_size, apply_groups, recovered}
use btypedb.Encrypt.{append_sealed_record, log_header, log_magic, prefix}
use btypedb.State.{DbState, empty_state, set, expired}
use btypedb.Db.Replay.{forget}
use btypedb.Db.Handle.{Db, wait_durable, lead, can_write, write_log, append_to_log}
use btypedb.Db.Transactions.{commit, commit_bytes, update, Body, returned, panicked}
use btypedb.Db.Writes.{guarded_append, acknowledge, db_set_internal, db_delete}
use btypedb.Db.Log.{apply, IsDurableLog}
use btypedb.Db.Log.Commit.{commit-IsDurableLog}
use btypedb.Db.Log.Writes.{db_set_internal-IsDurableLog, db_delete-IsDurableLog}
use btypedb.Db.Recovery.{reopened, reopen-cut}
use btypedb.Db.Durability.{IsSynced}
use btypedb.Db.Acknowledged.{commit-survives}
use btypedb.Db.Atomic.{update-unlocks, update-abandoned, update-IsDurableLog}
use btypedb.Tx.{Tx}
use btypedb.Tx.Savepoints.{last_index, savepoint, rollback_to}
use btypedb.Tx.Savepoints.Laws.{rollback_to-savepoint}
use btypedb.Tests.Setup.{
  trees, format, new_db, good_io, number_codec-RoundTrips, bytes_codec-RoundTrips,
}
use btypedb.Tests.States.{value_seven, written_tx, written_tx-IsLogged}

pub length-log_header : length log_header ≡ 16
unfolding log_header prefix
length-log_header = omega (
  arith,
  length-append log_magic (put_le 4 1 ++ put_le 4 (checksum (log_magic ++ put_le 4 1))),
  length-append (put_le 4 1) (put_le 4 (checksum (log_magic ++ put_le 4 1))),
  length-put_le 4 1,
  length-put_le 4 (checksum (log_magic ++ put_le 4 1)),
)

pub new_db-IsDurableLog : IsDurableLog trees format (empty_state trees) log_header new_db
new_db-IsDurableLog = record {
  groups = [];
  grouped = tt;
  log_eq = take_all 16 log_header (omega (arith, length-log_header)) ∙ sym (append-nil log_header);
  size_eq = sym (ap length (append-nil log_header) ∙ length-log_header);
  size_le = omega (arith, length-log_header);
  clean = λ _. length-log_header;
  applies = refl;
}

new_db-IsSynced : IsSynced trees new_db
new_db-IsSynced = record {
  seq_le = omega arith;
  size_le = omega (arith, length-log_header);
  covered = λ _. omega arith;
}

abbrev pub committed : Result (Unit {0}) × Db trees
committed = commit trees good_io written_tx new_db

committed-ok : committed.0 ≡ ok tt
unfolding commit can_write write_log wait_durable lead frame record_body put_le prepend_deadline
committed-ok = refl

durable_bytes : committed.1.file.durable ≤ length committed.1.file.content
unfolding commit can_write write_log wait_durable lead frame record_body put_le prepend_deadline
durable_bytes =
    let e : committed.1.file.durable ≡ length committed.1.file.content = refl in omega (arith, e)

commit-survives_example :
    (valid : ℕ) × (parsed : ℕ) × (reopened trees format log_header
        (take (length committed.1.file.content) committed.1.file.content)
      ≡ recovered (apply trees format) (forget trees written_tx.state) valid parsed)
commit-survives_example =
    commit-survives trees good_io written_tx new_db refl refl committed-ok format log_header
      (length committed.1.file.content) new_db-IsDurableLog written_tx-IsLogged (omega arith) refl
      (omega arith) new_db-IsSynced durable_bytes

commit-IsDurableLog_example : IsDurableLog trees format (empty_state trees) log_header committed.1
commit-IsDurableLog_example =
    commit-IsDurableLog trees format (empty_state trees) log_header good_io written_tx new_db
      new_db-IsDurableLog written_tx-IsLogged (omega arith)

pub committed-log : IsDurableLog trees format (empty_state trees) log_header committed.1
committed-log =
    commit-IsDurableLog trees format (empty_state trees) log_header good_io written_tx new_db
      new_db-IsDurableLog written_tx-IsLogged (omega arith)

five_more : length log_header + 5 ≤ committed.1.wal_size
unfolding commit can_write write_log wait_durable lead frame record_body put_le prepend_deadline
five_more = omega (arith, length-log_header)

reopen-cut_example :
    (kept : List (List WalRecord)) × (gone : List (List WalRecord)) × (t : DbState trees) × (p : ℕ)
    × (committed-log.groups ≡ kept ++ gone)
    × (apply_groups (apply trees format) (forget trees (empty_state trees)) kept ≡ ok t)
    × (reopened trees format log_header (take (length log_header + 5) committed.1.file.content)
        ≡ recovered (apply trees format) t (total_size kept) (total_size kept + p))
reopen-cut_example = reopen-cut trees format log_header committed.1 committed-log 5 five_more

abbrev set_result : Result (Unit {0}) × Db trees
set_result = db_set_internal trees format good_io new_db 4 value_seven (pos 0)

set_small : length set_result.1.file.content ≤ length log_header + 2 ^ 30
unfolding db_set_internal guarded_append append_to_log append_sealed_record append_record can_write
    write_log acknowledge wait_durable lead bytes_codec frame record_body put_le prepend_deadline
set_small =
    let rec : WalRecord = record { op = 1; key = put_le 8 4; val = value_seven } in
    omega (arith, length-append log_header (frame_of rec), length-frame_of rec, length-put_le 8 4)

pub delete_small :
    length (db_delete trees format good_io (pos 50) committed.1 4).1.file.content
    ≤ length committed.1.file.content + 2 ^ 30
unfolding db_delete append_to_log append_sealed_record append_record can_write write_log acknowledge
    wait_durable lead commit commit_bytes frame record_body put_le prepend_deadline expired ℕ_order
    find set place
delete_small =
    let rec : WalRecord = record { op = 2; key = put_le 8 4; val = [] } in
    omega (
      arith,
      length-append committed.1.file.content (frame_of rec),
      length-frame_of rec,
      length-put_le 8 4,
    )

db_set_internal-IsDurableLog_example :
    IsDurableLog trees format (empty_state trees) log_header set_result.1
db_set_internal-IsDurableLog_example =
    db_set_internal-IsDurableLog trees format (empty_state trees) log_header good_io new_db
      new_db-IsDurableLog 4 value_seven (pos 0) number_codec-RoundTrips bytes_codec-RoundTrips
      (omega arith) tt set_small

db_delete-IsDurableLog_example :
    IsDurableLog trees format
      (empty_state trees)
      log_header
      (db_delete trees format good_io (pos 50) committed.1 4).1
db_delete-IsDurableLog_example =
    db_delete-IsDurableLog trees format (empty_state trees) log_header good_io committed.1
      committed-log (pos 50) 4 number_codec-RoundTrips delete_small

-- Functions for `Update`: one that writes, and one that writes and then panics.
abbrev writes : Tx trees → Body trees ℕ
writes tx = returned 3 written_tx

abbrev gives_up : Tx trees → Body trees ℕ
gives_up tx = panicked written_tx

update-IsDurableLog_example :
    IsDurableLog trees format (empty_state trees) log_header (update trees good_io writes new_db).1
update-IsDurableLog_example =
    update-IsDurableLog trees good_io writes new_db format (empty_state trees) log_header
      new_db-IsDurableLog written_tx-IsLogged (omega arith)

update-unlocks_example : (update trees good_io gives_up new_db).1.writer_held ≡ false
update-unlocks_example = update-unlocks trees good_io gives_up new_db refl refl refl

update-abandoned_example : (update trees good_io gives_up new_db).1 ≡ new_db
update-abandoned_example = update-abandoned trees good_io gives_up new_db refl refl refl refl

-- A savepoint of a transaction with one write, and the transaction after a second.
abbrev saved_tx : Tx trees
saved_tx = record written_tx {
  saves = 0 ∷ [];
  marks =
      record {
        state = written_tx.state;
        pending_len = length written_tx.pending;
        nops = written_tx.nops;
        active = true;
      }
      ∷ [];
}

abbrev later_tx : Tx trees
later_tx = record saved_tx {
  state = empty_state trees;
  pending = written_tx.pending ++ (9 ∷ 9 ∷ []);
  nops = 2;
}

rollback_to-savepoint_example :
    (tx3 : Tx trees) × (rollback_to trees later_tx (some 0) ≡ ok tx3)
    × (tx3.state ≡ written_tx.state)
    × (tx3.pending ≡ written_tx.pending)
    × (tx3.nops ≡ 1)
    × (tx3.saves ≡ 0 ∷ [])
rollback_to-savepoint_example =
    rollback_to-savepoint trees written_tx refl 0 saved_tx later_tx (unfold savepoint in refl)
      (record {
        written = 9 ∷ 9 ∷ [];
        later = [];
        pending_eq = refl;
        saves_eq = refl;
        not_later = (unfold last_index in refl);
        still_open = refl;
      })
      refl
