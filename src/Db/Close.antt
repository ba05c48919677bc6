-- ===== src/Db/Close.antt =====
-- `Close` of db.go, and a round of `sweepLoop` of ttl.go.
pub mod Laws
use btypedb.Prelude.{
  Bool, true, Option, none, some, List, [], ◌∷◌, ◌++◌, ok, err, Error, io_failure, if◌then◌else◌,
}
use btypedb.Prelude.Int.{ℤ}
use btypedb.Prelude.Order.{Order}
use btypedb.State.{Trees}
use btypedb.Db.Apply.{Format}
use btypedb.Db.Handle.{Db, Io, fsync, keep_error, mark_durable}
use btypedb.Db.Transactions.{Ended, gave, panics}
use btypedb.Db.Sweep.{sweep_expired}

-- What the system answers to the last sync and to the closing of the file.
pub record CloseIo : Type 0 where
  pub sync : Bool
  pub close : Bool

-- `errs` gets an error that is not nil.
abbrev reported : Option Error → List Error → List Error
reported none errs = errs
reported (some e) errs = e ∷ errs

abbrev failed_call : Bool → List Error
failed_call success = if success then [] else io_failure ∷ []

module _ {K : Type 0} {o : Order K} {V : Type 0} (trees : Trees o V) where
  abbrev pub background_errors : Db trees → List Error
  background_errors db = reported db.sync_err (reported db.compact_err (reported db.sweep_err []))

  -- The end of `Close`, under the lock. The errors that `errors.Join` joins are a list; the empty
  -- list is nil.
  unfoldable pub finish_close : CloseIo → Db trees → List Error × Db trees
  unfolding mark_durable
  finish_close io db = (
    background_errors db ++ (failed_call io.sync ++ failed_call io.close),
    if io.sync then mark_durable trees (record db { file = fsync trees db.file }) else db,
  )

  -- `during` is what goes on while `Close` waits for the goroutines.
  unfoldable pub close_db : CloseIo → (Db trees → Db trees) → Db trees → List Error × Db trees
  unfolding finish_close
  close_db io during db =
      if db.is_closed then ([], db) else finish_close io (during (record db { is_closed = true }))

  module _ (format : Format K V) where
    abbrev pub noted : Ended trees (Unit {0}) × Db trees → Db trees
    noted (gave (ok _), db) = db
    noted (gave (err e), db) = record db { sweep_err = keep_error e db.sweep_err }
    noted (panics, db) = db

    -- A round of `sweepLoop`: the first error that is not ErrClosed is kept.
    unfoldable pub sweep_round : Io → ℤ → ℤ → Db trees → Db trees
    unfolding sweep_expired
    sweep_round io now clock db = noted (sweep_expired trees format io now clock db)
