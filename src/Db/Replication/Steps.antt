-- ===== src/Db/Replication/Steps.antt =====
-- The operations of a database, as steps that keep the bytes up to `walSize`.
use btypedb.Prelude.{
  ℕ, refl, Bool, true, false, not, ◌==◌, [], ok, err, arith, Bool-cases, Result-cases, inl, inr,
  Result,
}
use btypedb.Prelude.Int.{ℤ}
use btypedb.Prelude.Order.{Order}
use btypedb.Bytes.{Bytes}
use btypedb.State.{Trees, set, delete, expired}
use btypedb.Db.Apply.{Format}
use btypedb.Db.Handle.{Db, Io, can_write, write_log, append_to_log, sync, background_sync}
use btypedb.Db.Writes.{
  db_set_internal, db_delete, guarded_append, acknowledge, encoded, finish_set, finish_delete,
}
use btypedb.Db.Transactions.{commit, commit_bytes, publish, rollback}
use btypedb.Tx.{Tx}
use btypedb.Tx.Writes.{write_op, write_value}
use btypedb.Encrypt.{append_sealed_record}
use btypedb.Wal.Record.{op_delete}
use btypedb.Db.Replication.Growth.{
  HasSize, Grows, SameFile, SameFile-Grows, write_log-Grows, waited-Grows, unmoved, sync-SameFile,
  background_sync-SameFile,
}

module _ {K : Type 0} {o : Order K} {V : Type 0} (trees : Trees o V) where
  module _ (format : Format K V) (io : Io) (db : Db trees) (h : HasSize trees db) where
    open format use {key_codec, val_codec, cipher}

    append_to_log-Grows :
        (op : ℕ) (key val : Bytes) → Grows trees db (append_to_log trees format io db op key val).1
    unfolding append_to_log
    append_to_log-Grows op key val =
        elim (Result-cases (append_sealed_record [] cipher io.rand op key val)) [
          | inl (buf, e) ↦ rw (append_to_log, e) (write_log-Grows trees io.write db buf h)
          | inr (x, e) ↦ rw (append_to_log, e) (SameFile-Grows trees db db h (unmoved trees db))
        ]

    guarded_append-Grows :
        (op : ℕ) (key val : Bytes) → Grows trees db (guarded_append trees format io db op key val).1
    unfolding guarded_append
    guarded_append-Grows op key val = elim (Result-cases (can_write trees db)) [
      | inl (u, e) ↦ rw (guarded_append, e) (append_to_log-Grows op key val)
      | inr (x, e) ↦ rw (guarded_append, e) (SameFile-Grows trees db db h (unmoved trees db))
    ]

    finish_set-Grows :
        (key : K) (value : V) (d : ℤ) (x : Result (Unit {0}) × Db trees)
        → Grows trees db x.1
        → Grows trees db (finish_set trees format io key value d x).1
    unfolding acknowledge
    finish_set-Grows key value d (ok u, db1) g =
        waited-Grows trees io.sync_ok db1.append_seq db db1
          (record db1 { state = set trees db1.state key value d }) g
          (record { same_epoch = refl; same_size = refl; same_content = refl })
    finish_set-Grows key value d (err e, db1) g = g

    pub db_set_internal-Grows :
        (key : K) (value : V) (d : ℤ)
        → Grows trees db (db_set_internal trees format io db key value d).1
    unfolding db_set_internal
    db_set_internal-Grows key value d = elim (Result-cases (encoded trees format io key value)) [
      | inl (kv, e) ↦
          rw (db_set_internal, e)
            (finish_set-Grows key value d _
              (guarded_append-Grows (write_op d) kv.0 (write_value d kv.1)))
      | inr (x, e) ↦ rw (db_set_internal, e) (SameFile-Grows trees db db h (unmoved trees db))
    ]

    finish_delete-Grows :
        (key : K) (visible : Bool) (x : Result (Unit {0}) × Db trees)
        → Grows trees db x.1
        → Grows trees db (finish_delete trees format io key visible x).1
    unfolding acknowledge
    finish_delete-Grows key visible (ok u, db1) g =
        waited-Grows trees io.sync_ok db1.append_seq db db1
          (record db1 { state = (delete trees db1.state key).0 }) g
          (record { same_epoch = refl; same_size = refl; same_content = refl })
    finish_delete-Grows key visible (err e, db1) g = g

    pub db_delete-Grows :
        (now : ℤ) (key : K) → Grows trees db (db_delete trees format io now db key).1
    unfolding db_delete
    db_delete-Grows now key = elim (Result-cases (key_codec.encode key)) [
      | inr (x, ke) ↦ rw (db_delete, ke) (SameFile-Grows trees db db h (unmoved trees db))
      | inl (kb, ke) ↦ elim (Result-cases (can_write trees db)) [
        | inr (x, e) ↦ rw (db_delete, ke, e) (SameFile-Grows trees db db h (unmoved trees db))
        | inl (u, e) ↦ elim (Bool-cases (trees.data_map.contains db.state.pairs key)) [
          | inr missing ↦
              rw (db_delete, ke, e, missing) (SameFile-Grows trees db db h (unmoved trees db))
          | inl there ↦
              rw (db_delete, ke, e, there)
                (finish_delete-Grows key (not (expired trees db.state key now)) _
                  (append_to_log-Grows op_delete kb []))
        ]
      ]
    ]

  module _ (io : Io) (tx : Tx trees) (db : Db trees) (h : HasSize trees db) where
    publish-Grows :
        (x : Result (Unit {0}) × Db trees)
        → Grows trees db x.1
        → Grows trees db (publish trees io tx x).1
    publish-Grows (ok u, db1) g =
        waited-Grows trees io.sync_ok db1.append_seq db db1
          (record db1 { state = tx.state; writer_held = false }) g
          (record { same_epoch = refl; same_size = refl; same_content = refl })
    publish-Grows (err e, db1) g = record {
      epoch_eq = g.epoch_eq;
      size_le = g.size_le;
      prefix_eq = g.prefix_eq;
      has_size = g.has_size;
    }

    pub commit-Grows : Grows trees db (commit trees io tx db).1
    unfolding commit
    commit-Grows =
        let stays = SameFile-Grows trees db db h (unmoved trees db) in
        let released =
          SameFile-Grows trees db (record db { writer_held = false }) h
            (record { same_epoch = refl; same_size = refl; same_content = refl }) in
        elim (Bool-cases tx.done) [
          | inl over ↦ rw (commit, over) stays
          | inr running ↦ elim (Bool-cases tx.writable) [
            | inr reader ↦ rw (commit, running, reader) stays
            | inl writer ↦ elim (Result-cases (can_write trees db)) [
              | inr (x, e) ↦ rw (commit, running, writer, e) released
              | inl (u, e) ↦ elim (Bool-cases (tx.nops == 0)) [
                | inl idle ↦ rw (commit, running, writer, e, idle) released
                | inr some_ops ↦
                    rw (commit, running, writer, e, some_ops)
                      (publish-Grows (write_log trees io.write db (commit_bytes trees tx))
                        (write_log-Grows trees io.write db (commit_bytes trees tx) h))
              ]
            ]
          ]
        ]

  module _ (format : Format K V) where
    -- One operation between two compactions, whatever it answers.
    pub data LogStep : Db trees → Db trees → Type 0 where
      sets :
          (io : Io) (db : Db trees) (key : K) (value : V) (d : ℤ)
          → LogStep db (db_set_internal trees format io db key value d).1
      deletes :
          (io : Io) (now : ℤ) (db : Db trees) (key : K)
          → LogStep db (db_delete trees format io now db key).1
      begins : (db : Db trees) → LogStep db (record db { writer_held = true })
      commits : (io : Io) (tx : Tx trees) (db : Db trees) → LogStep db (commit trees io tx db).1
      rolls_back : (tx : Tx trees) (db : Db trees) → LogStep db (rollback trees tx db)
      syncs : (b : Bool) (db : Db trees) → LogStep db (sync trees b db).1
      syncs_behind : (b : Bool) (db : Db trees) → LogStep db (background_sync trees b db)

    rollback-SameFile : (tx : Tx trees) (db : Db trees) → SameFile trees db (rollback trees tx db)
    unfolding rollback
    rollback-SameFile tx db = record {
      same_epoch = ground arith;
      same_size = ground arith;
      same_content = ground arith;
    }

    pub LogStep-Grows : (db db' : Db trees) → LogStep db db' → HasSize trees db → Grows trees db db'
    LogStep-Grows _ _ (LogStep.sets io db key value d) h =
        db_set_internal-Grows format io db h key value d
    LogStep-Grows _ _ (LogStep.deletes io now db key) h = db_delete-Grows format io db h now key
    LogStep-Grows _ _ (LogStep.begins db) h =
        SameFile-Grows trees db (record db { writer_held = true }) h
          (record { same_epoch = refl; same_size = refl; same_content = refl })
    LogStep-Grows _ _ (LogStep.commits io tx db) h = commit-Grows io tx db h
    LogStep-Grows _ _ (LogStep.rolls_back tx db) h =
        SameFile-Grows trees db (rollback trees tx db) h (rollback-SameFile tx db)
    LogStep-Grows _ _ (LogStep.syncs b db) h =
        SameFile-Grows trees db (sync trees b db).1 h (sync-SameFile trees b db)
    LogStep-Grows _ _ (LogStep.syncs_behind b db) h =
        SameFile-Grows trees db (background_sync trees b db) h (background_sync-SameFile trees b db)
