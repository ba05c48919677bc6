-- ===== src/Db/Acknowledged.antt =====
-- A commit that `Commit` of tx.go acknowledged, and a power cut after it.
use btypedb.Prelude.{
  ℕ, ◌+◌, ◌^◌, ◌≤◌, ◌<◌, ◌≡◌, refl, ap, ◌∙◌, sym, Bool, true, false, none, ok, take, ◌==◌, arith,
  Bool-cases, Result-cases, inl, inr, take_all, err-ne-ok,
}
use btypedb.Prelude.Order.{Order}
use btypedb.Bytes.{Bytes}
use btypedb.State.{Trees, empty_state}
use btypedb.Db.Apply.{Format}
use btypedb.Db.Replay.{forget}
use btypedb.Db.Handle.{
  Db, Io, sync_always, WriteOutcome, wrote, cut_at, can_write, appended, maybe_auto_compact,
  write_log, wait_durable, lead,
}
use btypedb.Db.Transactions.{commit_bytes, commit, publish}
use btypedb.Db.Log.{apply, IsDurableLog}
use btypedb.Db.Log.Commit.{can_write-ok, commit-IsDurableLog}
use btypedb.Db.Recovery.{reopened, reopen-whole}
use btypedb.Db.Durability.{
  IsSynced, write_log-IsSynced, wait_durable-covered, wait_durable-write_err,
}
use btypedb.Wal.Replay.Crash.{recovered}
use btypedb.Tx.{Tx}
use btypedb.Tx.Log.{IsLogged}

module _ {K : Type 0} {o : Order K} {V : Type 0} (trees : Trees o V) where
  -- The database between the append of a commit and its acknowledgement.
  abbrev published : Tx trees → Db trees → Db trees
  published tx db = record (maybe_auto_compact trees (appended trees db (commit_bytes trees tx))) {
    state = tx.state;
    writer_held = false;
  }

  wait_durable-state :
      (b : Bool) (seq : ℕ) (db : Db trees) → (wait_durable trees b seq db).1.state ≡ db.state
  unfolding wait_durable lead
  wait_durable-state b seq db = ground arith

  published-same :
      (tx : Tx trees) (db : Db trees)
      → ((published tx db).write_err ≡ db.write_err) × ((published tx db).options ≡ db.options)
  unfolding maybe_auto_compact
  published-same tx db = (ground arith, ground arith)

  module _ (io : Io) (tx : Tx trees) (db : Db trees) where
    publish-ok :
        (w : WriteOutcome)
        → (publish trees io tx (write_log trees w db (commit_bytes trees tx))).0 ≡ ok tt
        → (w ≡ wrote)
          × (publish trees io tx (write_log trees w db (commit_bytes trees tx))
              ≡ wait_durable trees io.sync_ok (published tx db).append_seq (published tx db))
    unfolding write_log
    publish-ok wrote h = (refl, refl)
    publish-ok (cut_at n) h = absurd (err-ne-ok h)

    module _ (writable : tx.writable ≡ true) (some_op : (tx.nops == 0) ≡ false)
        (acknowledged : (commit trees io tx db).0 ≡ ok tt) where
      -- An acknowledged commit was written whole, by a database that could write.
      commit-ok :
          (db.write_err ≡ none)
          × (io.write ≡ wrote)
          × (commit trees io tx db
              ≡ wait_durable trees io.sync_ok (published tx db).append_seq (published tx db))
      unfolding commit
      commit-ok = elim (Bool-cases tx.done) [
        | inl over ↦ absurd (err-ne-ok (rw (commit, over) at acknowledged))
        | inr open_tx ↦ elim (Result-cases (can_write trees db)) [
          | inr (x, e) ↦ absurd (err-ne-ok (rw (commit, open_tx, writable, e) at acknowledged))
          | inl (u, e) ↦
              let (all, same) =
                publish-ok io.write (rw (commit, open_tx, writable, e, some_op) at acknowledged) in
              (can_write-ok trees db u e, all, rw (commit, open_tx, writable, e, some_op) same)
        ]
      ]

      -- After an acknowledged commit, the state is the transaction's, and no earlier failure has
      -- made the database read-only.
      commit-published :
          ((commit trees io tx db).1.state ≡ tx.state)
          × ((commit trees io tx db).1.write_err ≡ none)
      commit-published =
          let (clean, all, same) = commit-ok in
          let db2 = published tx db in
          let quiet : db2.write_err ≡ none = (published-same tx db).0 ∙ clean in
          let answered : (wait_durable trees io.sync_ok db2.append_seq db2).0 ≡ ok tt =
            sym (ap (λ p. p.0) same) ∙ acknowledged in
          rw same (
            (wait_durable-state io.sync_ok db2.append_seq db2),
            wait_durable-write_err trees io.sync_ok db2 quiet answered,
          )

      -- Under `SyncAlways` it is on the disk.
      commit-covered :
          db.options.policy ≡ sync_always
          → db.append_seq + 1 < 2 ^ 64
          → IsSynced trees db
          → (commit trees io tx db).1.wal_size ≤ (commit trees io tx db).1.file.durable
      commit-covered policy room s =
          let (clean, all, same) = commit-ok in
          let db2 = published tx db in
          let t = write_log-IsSynced trees wrote db (commit_bytes trees tx) room s in
          let t2 : IsSynced trees db2 =
            (unfold write_log in
              record { seq_le = t.seq_le; size_le = t.size_le; covered = t.covered }) in
          let answered : (wait_durable trees io.sync_ok db2.append_seq db2).0 ≡ ok tt =
            sym (ap (λ p. p.0) same) ∙ acknowledged in
          let still : db2.options.policy ≡ sync_always =
            ap (λ p. p.policy) (published-same tx db).1 ∙ policy in
          rw same (wait_durable-covered trees io.sync_ok db2 still t2 answered)

      -- Under `SyncAlways` the state of a commit that was acknowledged survives a power cut: the
      -- disk holds at least `durable` bytes of the file, and whatever is left of it replays,
      -- without an error, to the state of the transaction (the indexes are not in the log).
      pub commit-survives :
          (format : Format K V) (hdr : Bytes) (m : ℕ)
          → IsDurableLog trees format (empty_state trees) hdr db
          → IsLogged trees format db.state tx
          → tx.nops < 2 ^ 64
          → db.options.policy ≡ sync_always
          → db.append_seq + 1 < 2 ^ 64
          → IsSynced trees db
          → (commit trees io tx db).1.file.durable ≤ m
          → (valid : ℕ) × (parsed : ℕ) × (reopened trees format hdr
                (take m (commit trees io tx db).1.file.content)
              ≡ recovered (apply trees format) (forget trees tx.state) valid parsed)
      commit-survives format hdr m h l few policy room s left =
          let db' = (commit trees io tx db).1 in
          let log = commit-IsDurableLog trees format (empty_state trees) hdr io tx db h l few in
          let (state, quiet) = commit-published in
          let (valid, parsed, e) = reopen-whole trees format hdr db' log in
          let size = log.clean quiet in
          let covered = commit-covered policy room s in
          let here : take m db'.file.content ≡ db'.file.content =
            take_all m db'.file.content (omega arith) in
          let there : take db'.wal_size db'.file.content ≡ db'.file.content =
            take_all db'.wal_size db'.file.content (omega arith) in
          (
            valid,
            parsed,
            ap (reopened trees format hdr) (here ∙ sym there)
                ∙ e
                ∙ ap (λ t. recovered (apply trees format) (forget trees t) valid parsed) state,
          )
