-- ===== src/Db/Transactions.antt =====
-- `Begin`, `Commit`, `Rollback`, `View`, `Update` of tx.go, and `DeleteRange` of db.go.
use btypedb.Prelude.{
  ◌||◌, ℕ, Bool, true, false, not, [], ◌++◌, Result, ok, err, ◌>>=◌, Error, closed, tx_closed, ltb,
  ◌==◌, if◌then◌else◌,
}
use btypedb.Prelude.Int.{ℤ}
use btypedb.Prelude.Order.{Order}
use btypedb.Bytes.{Bytes, put_le}
use btypedb.Wal.Record.{op_batch, append_record}
use btypedb.State.{Trees}
use btypedb.Db.Apply.{Format}
use btypedb.Db.Handle.{Io, Db, can_write, write_log, wait_durable}
use btypedb.Tx.{Tx, new_tx}
use btypedb.Tx.Ranges.{tx_delete_range}
use btypedb.Tx.Savepoints.{release_saves}

module _ {K : Type 0} {o : Order K} {V : Type 0} (trees : Trees o V) where
  abbrev pub may_begin : Bool → Db trees → Result (Unit {0})
  may_begin true db = can_write trees db
  may_begin false db = if db.is_closed then err closed else ok tt

  abbrev pub begun : Bool → Db trees → Result (Unit {0}) → Result (Tx trees × Db trees)
  begun writable db (err e) = err e
  begun writable db (ok _) =
      ok (new_tx trees db.state writable, record db { writer_held = writable || db.writer_held })

  -- Called where `writerMu` is free, or for reading; on an error the lock is free again.
  unfoldable pub begin : Bool → Db trees → Result (Tx trees × Db trees)
  begin writable db = begun writable db (may_begin writable db)

  abbrev pub finished : Tx trees → Tx trees
  finished tx = record (release_saves trees tx) { done = true }

  abbrev pub unlocked : Tx trees → Db trees → Db trees
  unlocked tx db = if tx.writable then record db { writer_held = false } else db

  -- What `Commit` appends.
  unfoldable pub commit_bytes : Tx trees → Bytes
  commit_bytes tx =
      if ltb 1 tx.nops
      then append_record [] op_batch [] (put_le 8 tx.nops) ++ tx.pending
      else tx.pending

  abbrev pub publish : Io → Tx trees → Result (Unit {0}) × Db trees → Result (Unit {0}) × Db trees
  publish io tx (err e, db) = (err e, record db { writer_held = false })
  publish io tx (ok _, db) =
      let db' = record db { state = tx.state; writer_held = false } in
      wait_durable trees io.sync_ok db'.append_seq db'

  abbrev commit_allowed :
      Io → Tx trees → Db trees → Result (Unit {0}) → Result (Unit {0}) × Db trees
  commit_allowed io tx db (err e) = (err e, record db { writer_held = false })
  commit_allowed io tx db (ok _) =
      if tx.nops == 0
      then (ok tt, record db { writer_held = false })
      else publish io tx (write_log trees io.write db (commit_bytes tx))

  -- The transaction itself becomes `finished`, on every branch but the first.
  unfoldable pub commit : Io → Tx trees → Db trees → Result (Unit {0}) × Db trees
  unfolding commit_bytes
  commit io tx db =
      if tx.done
      then (err tx_closed, db)
      else if not tx.writable
      then (ok tt, db)
      else commit_allowed io tx db (can_write trees db)

  unfoldable pub rollback : Tx trees → Db trees → Db trees
  rollback tx db = if tx.done then db else unlocked tx db

  -- How the function that `Update` runs ends.
  pub data Body {ℓ} (A : Type ℓ) : Type ℓ where
    returned : A → Tx trees → Body A
    failed : Error → Tx trees → Body A
    panicked : Tx trees → Body A

  -- How `Update` itself ends: a panic goes on to the caller.
  pub data Ended {ℓ} (A : Type ℓ) : Type ℓ where
    gave : Result A → Ended A
    panics : Ended A

  abbrev pub after_body {ℓ} : {A : Type ℓ} → Io → Db trees → Body A → Ended A × Db trees
  after_body io db (returned a tx) = let (r, db') = commit io tx db in (gave (r >>= λ _. ok a), db')
  after_body io db (failed e tx) = (gave (err e), rollback tx db)
  after_body io db (panicked tx) = (panics, rollback tx db)

  -- `fn` works on its transaction alone; the database does not change while it runs.
  unfoldable pub update {ℓ} :
      {A : Type ℓ} → Io → (Tx trees → Body A) → Db trees → Ended A × Db trees
  unfolding commit rollback
  update io fn db = elim (begin true db) [
    | ok (tx, db') ↦ after_body io db' (fn tx)
    | err e ↦ (gave (err e), db)
  ]

  -- A read-only transaction: the database does not change.
  unfoldable pub view {ℓ} : {A : Type ℓ} → (Tx trees → Body A) → Db trees → Ended A
  view fn db = elim (begin false db) [
    | ok (tx, _) ↦ elim (fn tx) [
      | returned a _ ↦ gave (ok a)
      | failed e _ ↦ gave (err e)
      | panicked _ ↦ panics
    ]
    | err e ↦ gave (err e)
  ]

  abbrev range_body : Tx trees → Result (ℕ × Tx trees) → Body ℕ
  range_body tx (ok (n, tx')) = returned n tx'
  range_body tx (err e) = failed e tx

  unfoldable pub db_delete_range : Format K V → Io → ℤ → Db trees → K → K → Ended ℕ × Db trees
  unfolding update
  db_delete_range format io now db min max =
      update io (λ tx. range_body tx (tx_delete_range trees format now tx min max)) db
