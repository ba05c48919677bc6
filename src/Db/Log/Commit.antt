-- ===== src/Db/Log/Commit.antt =====
-- `Commit` keeps the log: all of a transaction becomes one group of it, or nothing does.
use btypedb.Prelude.{
  ℕ, ◌^◌, ◌<◌, ◌≡◌, refl, true, false, Option, none, some, List, [], ◌∷◌, ◌++◌, ok, io_failure,
  length, take, ltb, append-nil, ◌==◌, arith, Bool-cases, Result-cases, inl, inr, err-ne-ok,
  if◌then◌else◌,
}
use btypedb.Prelude.Order.{Order}
use btypedb.Bytes.{Bytes, put_le}
use btypedb.Wal.Record.{WalRecord, op_batch, append_record}
use btypedb.Wal.Replay.Groups.{frames, group_bytes, IsGroup, apply_all}
use btypedb.State.{Trees, DbState}
use btypedb.Db.Apply.{Format}
use btypedb.Db.Replay.{forget}
use btypedb.Db.Handle.{
  Db, Io, WriteOutcome, wrote, cut_at, can_write, no_error, appended, torn_append,
  maybe_auto_compact, write_log,
}
use btypedb.Db.Transactions.{commit_bytes, commit, publish}
use btypedb.Db.Log.{
  apply, IsDurableLog, Keeps, Keeps-IsDurableLog, maybe_auto_compact-Keeps, wait_durable-Keeps,
}
use btypedb.Db.Log.Growth.{append-HasLog, torn-HasLog}
use btypedb.Tx.{Tx}
use btypedb.Tx.Log.{IsLogged}

module _ {K : Type 0} {o : Order K} {V : Type 0} (trees : Trees o V) where
  pub can_write-ok :
      (db : Db trees) (u : Unit {0}) → can_write trees db ≡ ok u → db.write_err ≡ none
  unfolding can_write
  can_write-ok db u h = elim (Bool-cases db.is_closed) [
    | inl over ↦ absurd (err-ne-ok (rw over at h))
    | inr open_db ↦ clear db.write_err (rw open_db at h)
  ]
    where
      clear : (e : Option _) → no_error trees e ≡ ok u → e ≡ none
      clear none h = refl
      clear (some x) h = absurd (err-ne-ok h)

  module _ (format : Format K V) (init : DbState trees) (hdr : Bytes) where
    -- One group written to a clean log, with the state that it leads to; or a write that broke off.
    pub write_log-wrote :
        (db : Db trees) (g : List WalRecord) (s' : DbState trees)
        → IsDurableLog trees format init hdr db
        → db.write_err ≡ none
        → IsGroup g
        → apply_all (apply trees format) (forget trees db.state) g ≡ ok (forget trees s')
        → IsDurableLog trees format init hdr
            (record (maybe_auto_compact trees (appended trees db (group_bytes g))) { state = s' })
    write_log-wrote db g s' h clean ig a =
        let m = maybe_auto_compact-Keeps trees format (appended trees db (group_bytes g)) in
        let k : Keeps trees format (record (appended trees db (group_bytes g)) { state = s' })
            (record (maybe_auto_compact trees (appended trees db (group_bytes g))) { state = s' }) =
          record {
            same_state = refl;
            same_content = m.same_content;
            same_size = m.same_size;
            still_clean = m.still_clean;
          } in
        Keeps-IsDurableLog trees format init hdr _ _ k (
          append-HasLog trees format init hdr db.state db.file.content db.wal_size db.write_err h g
            s' db.write_err (h.clean clean) ig a)

    pub write_log-cut :
        (db : Db trees) (n : ℕ) (buf : Bytes)
        → IsDurableLog trees format init hdr db
        → IsDurableLog trees format init hdr (torn_append trees db (take n buf))
    write_log-cut db n buf h =
        torn-HasLog trees format init hdr db.state db.file.content db.wal_size db.write_err h
          (take n buf) io_failure

    -- What `Commit` writes is the group of the records that the transaction has logged.
    pub commit_bytes-group :
        (base : DbState trees) (tx : Tx trees) (l : IsLogged trees format base tx)
        → (tx.nops == 0) ≡ false
        → commit_bytes trees tx ≡ group_bytes l.recs
    unfolding commit_bytes append_record group_bytes
    commit_bytes-group base tx l some_op =
        rw (l.nops_eq, l.pending_eq) (by_count l.recs (rw l.nops_eq at some_op))
      where
        by_count :
            (recs : List WalRecord)
            → (length recs == 0) ≡ false
            → (if ltb 1 (length recs)
                then append_record [] op_batch [] (put_le 8 (length recs)) ++ frames recs
                else frames recs)
              ≡ group_bytes recs
        by_count [] h = absurd (ground arith)
        by_count (r ∷ []) h = append-nil _
        by_count (r ∷ q ∷ rs) h =
            let many : ltb 1 (length (r ∷ q ∷ rs)) ≡ true = ground arith in rw many

    module _ (io : Io) (tx : Tx trees) (db : Db trees) (h : IsDurableLog trees format init hdr db)
        (l : IsLogged trees format db.state tx) (few : tx.nops < 2 ^ 64) where
      publish-IsDurableLog :
          (w : WriteOutcome)
          → db.write_err ≡ none
          → (tx.nops == 0) ≡ false
          → IsDurableLog trees format init hdr
              (publish trees io tx (write_log trees w db (commit_bytes trees tx))).1
      unfolding write_log
      publish-IsDurableLog wrote clean some_op =
          let group : IsGroup l.recs = record {
            some_record = ground (arith, l.nops_eq);
            countable = omega (arith, l.nops_eq);
            members = l.members;
          } in
          let done = write_log-wrote db l.recs tx.state h clean group l.applies in
          rw (commit_bytes-group db.state tx l some_op) (
            Keeps-IsDurableLog trees format init hdr _ _
              (wait_durable-Keeps trees format io.sync_ok _ _) done)
      publish-IsDurableLog (cut_at n) clean some_op = write_log-cut db n (commit_bytes trees tx) h

      -- Whatever the system does during `Commit`, and on every branch, the log still replays to the
      -- state of the database.
      pub commit-IsDurableLog : IsDurableLog trees format init hdr (commit trees io tx db).1
      unfolding commit
      commit-IsDurableLog = elim (Bool-cases tx.done) [
        | inl over ↦ rw over h
        | inr open_tx ↦ elim (Bool-cases tx.writable) [
          | inr read_only ↦ rw (open_tx, read_only) h
          | inl writable ↦ elim (Result-cases (can_write trees db)) [
            | inr (x, e) ↦ rw (open_tx, writable, e) h
            | inl (u, e) ↦ elim (Bool-cases (tx.nops == 0)) [
              | inl no_op ↦ rw (open_tx, writable, e, no_op) h
              | inr some_op ↦
                  rw (open_tx, writable, e, some_op)
                    (publish-IsDurableLog io.write (can_write-ok db u e) some_op)
            ]
          ]
        ]
      ]
