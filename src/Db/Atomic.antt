-- ===== src/Db/Atomic.antt =====
-- `Update` of tx.go: how it ends, and the writer lock.
use btypedb.Prelude.{
  ℕ, ◌^◌, ◌<◌, ◌≡◌, refl, ap, ◌∙◌, sym, Bool, true, false, Result, ok, err, ◌==◌, arith, Bool-cases,
  Result-cases, inl, inr,
}
use btypedb.Prelude.Order.{Order}
use btypedb.Bytes.{Bytes}
use btypedb.State.{Trees, DbState}
use btypedb.Db.Apply.{Format}
use btypedb.Db.Handle.{Db, Io, can_write, lead, write_log, wait_durable}
use btypedb.Db.Transactions.{
  begin, commit, rollback, commit_bytes, publish, update, Body, returned, failed, panicked,
  after_body,
}
use btypedb.Db.Log.{IsDurableLog}
use btypedb.Db.Log.Commit.{commit-IsDurableLog}
use btypedb.Tx.{Tx, new_tx}
use btypedb.Tx.Log.{IsLogged}

module _ {K : Type 0} {o : Order K} {V : Type 0} (trees : Trees o V) where
  -- The transaction as the function left it.
  abbrev pub body_tx : {A : Type 0} → Body trees A → Tx trees
  body_tx (returned a tx) = tx
  body_tx (failed e tx) = tx
  body_tx (panicked tx) = tx

  -- The function returned without an error.
  abbrev pub succeeded : {A : Type 0} → Body trees A → Bool
  succeeded (returned a tx) = true
  succeeded _ = false

  wait_durable-writer :
      (b : Bool) (seq : ℕ) (db : Db trees)
      → (wait_durable trees b seq db).1.writer_held ≡ db.writer_held
  unfolding wait_durable lead
  wait_durable-writer b seq db = ground arith

  publish-unlocks :
      (io : Io) (tx : Tx trees) (p : Result (Unit {0}) × Db trees)
      → (publish trees io tx p).1.writer_held ≡ false
  publish-unlocks io tx (ok _, db) = wait_durable-writer io.sync_ok _ _
  publish-unlocks io tx (err e, db) = refl

  commit-unlocks :
      (io : Io) (tx : Tx trees) (db : Db trees)
      → tx.done ≡ false
      → tx.writable ≡ true
      → (commit trees io tx db).1.writer_held ≡ false
  unfolding commit
  commit-unlocks io tx db open_tx writable = elim (Result-cases (can_write trees db)) [
    | inr (x, e) ↦ rw (open_tx, writable, e)
    | inl (u, e) ↦ elim (Bool-cases (tx.nops == 0)) [
      | inl no_op ↦ rw (open_tx, writable, e, no_op)
      | inr some_op ↦
          rw (open_tx, writable, e, some_op)
            (publish-unlocks io tx (write_log trees io.write db (commit_bytes trees tx)))
    ]
  ]

  rollback-IsDurableLog :
      (format : Format K V) (init : DbState trees) (hdr : Bytes) (tx : Tx trees) (db : Db trees)
      → IsDurableLog trees format init hdr db
      → IsDurableLog trees format init hdr (rollback trees tx db)
  unfolding rollback
  rollback-IsDurableLog format init hdr tx db h = elim (Bool-cases tx.done) [
    | inl over ↦ rw over h
    | inr open_tx ↦ elim (Bool-cases tx.writable) [
      | inl writable ↦ rw (open_tx, writable) h
      | inr read_only ↦ rw (open_tx, read_only) h
    ]
  ]

  module _ {A : Type 0} (io : Io) (fn : Tx trees → Body trees A) (db : Db trees) where
    abbrev started : Tx trees
    started = new_tx trees db.state true

    after_body-unlocks :
        (b : Body trees A) (db' : Db trees)
        → (body_tx b).done ≡ false
        → (body_tx b).writable ≡ true
        → (after_body trees io db' b).1.writer_held ≡ false
    unfolding rollback
    after_body-unlocks (returned a tx) db' d w = commit-unlocks io tx db' d w
    after_body-unlocks (failed e tx) db' d w = rw (d, w)
    after_body-unlocks (panicked tx) db' d w = rw (d, w)

    -- `Update` leaves the writer lock free on every branch: it could not begin, its function
    -- returned, failed or panicked, and the commit succeeded or not.
    pub update-unlocks :
        db.writer_held ≡ false
        → (body_tx (fn started)).done ≡ false
        → (body_tx (fn started)).writable ≡ true
        → (update trees io fn db).1.writer_held ≡ false
    unfolding update begin
    update-unlocks free open_tx writable = elim (Result-cases (can_write trees db)) [
      | inl (u, e) ↦ rw (update, begin, e) (after_body-unlocks (fn started) _ open_tx writable)
      | inr (x, e) ↦ rw (update, begin, e) free
    ]

    after_body-abandoned :
        (b : Body trees A) (db' : Db trees)
        → succeeded b ≡ false
        → (body_tx b).done ≡ false
        → (body_tx b).writable ≡ true
        → (after_body trees io db' b).1 ≡ record db' { writer_held = false }
    unfolding rollback
    after_body-abandoned (returned a tx) db' f d w = cc f
    after_body-abandoned (failed e tx) db' f d w = rw (d, w)
    after_body-abandoned (panicked tx) db' f d w = rw (d, w)

    -- A function that fails or panics leaves no trace: the database is what it was, its file
    -- included, and the lock is free.
    pub update-abandoned :
        db.writer_held ≡ false
        → succeeded (fn started) ≡ false
        → (body_tx (fn started)).done ≡ false
        → (body_tx (fn started)).writable ≡ true
        → (update trees io fn db).1 ≡ db
    unfolding update begin
    update-abandoned free failure open_tx writable = elim (Result-cases (can_write trees db)) [
      | inl (u, e) ↦
          rw (update, begin, e)
            (after_body-abandoned (fn started) (record db { writer_held = true }) failure open_tx
                writable
              ∙ ap (λ b. record db { writer_held = b }) (sym free))
      | inr (x, e) ↦ rw (update, begin, e)
    ]

    after_body-IsDurableLog :
        (format : Format K V) (init : DbState trees) (hdr : Bytes) (b : Body trees A)
        (db' : Db trees)
        → IsDurableLog trees format init hdr db'
        → IsLogged trees format db'.state (body_tx b)
        → (body_tx b).nops < 2 ^ 64
        → IsDurableLog trees format init hdr (after_body trees io db' b).1
    after_body-IsDurableLog format init hdr (returned a tx) db' h l few =
        commit-IsDurableLog trees format init hdr io tx db' h l few
    after_body-IsDurableLog format init hdr (failed e tx) db' h l few =
        rollback-IsDurableLog format init hdr tx db' h
    after_body-IsDurableLog format init hdr (panicked tx) db' h l few =
        rollback-IsDurableLog format init hdr tx db' h

    -- `Update` keeps the log on every branch, if its function writes through the transaction: it
    -- leaves one that is logged from the state that it began with.
    pub update-IsDurableLog :
        (format : Format K V) (init : DbState trees) (hdr : Bytes)
        → IsDurableLog trees format init hdr db
        → IsLogged trees format db.state (body_tx (fn started))
        → (body_tx (fn started)).nops < 2 ^ 64
        → IsDurableLog trees format init hdr (update trees io fn db).1
    unfolding update begin
    update-IsDurableLog format init hdr h l few = elim (Result-cases (can_write trees db)) [
      | inl (u, e) ↦
          rw (update, begin, e)
            (after_body-IsDurableLog format init hdr (fn started) (record db { writer_held = true })
              h l few)
      | inr (x, e) ↦ rw (update, begin, e) h
    ]
