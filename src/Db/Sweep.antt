-- ===== src/Db/Sweep.antt =====
-- `sweepExpired` of ttl.go: expired keys are removed in one transaction. `now` is the moment of the
-- sweep, and `clock` that of the removals in it.
pub mod Laws
use btypedb.Prelude.{
  ℕ, suc, zero, Bool, true, false, Option, none, some, List, [], ◌∷◌, Result, ok, err, ◌>>=◌, ltb,
  leb, ◌||◌, if◌then◌else◌, length,
}
use btypedb.Prelude.Int.{ℤ, ltb_ℤ}
use btypedb.Prelude.Order.{Order}
use btypedb.State.Entries.{ExpEntry}
use btypedb.State.{Trees, DbState}
use btypedb.Db.Apply.{Format}
use btypedb.Db.Handle.{Db, Io}
use btypedb.Db.Transactions.{Body, returned, failed, Ended, gave, update}
use btypedb.Tx.{Tx, tx_delete}

abbrev pub sweep_batch_limit : ℕ
sweep_batch_limit = 512

module _ {K : Type 0} {o : Order K} {V : Type 0} (trees : Trees o V) where
  open trees use {ttl_map, exp_table}

  -- The keys whose deadline has passed, earliest first; `room` is what is left of the limit.
  unfoldable pub due_keys : ℤ → ℕ → List (ExpEntry K) → List K
  due_keys now room [] = []
  due_keys now zero (e ∷ es) = []
  due_keys now (suc room) (e ∷ es) =
      let rest = due_keys now room es in if ltb_ℤ now e.at then [] else e.key ∷ rest

  module _ (format : Format K V) where
    abbrev removed : Result (Bool × Tx trees) → Result (Tx trees)
    removed (ok (_, tx)) = ok tx
    removed (err e) = err e

    abbrev pub sweep_one : ℤ → ℤ → Tx trees → K → Option ℤ → Result (Tx trees)
    sweep_one now clock tx k none = ok tx
    sweep_one now clock tx k (some deadline) =
        if ltb_ℤ now deadline then ok tx else removed (tx_delete trees format clock tx k)

    -- The deadline of each key is looked at again.
    unfoldable pub sweep_keys : ℤ → ℤ → Tx trees → List K → Result (Tx trees)
    sweep_keys now clock tx [] = ok tx
    sweep_keys now clock tx (k ∷ ks) = do
      tx' ← sweep_one now clock tx k (ttl_map.get tx.state.ttl k)
      sweep_keys now clock tx' ks

    abbrev sweep_body : Tx trees → Result (Tx trees) → Body trees (Unit {0})
    sweep_body tx (ok tx') = returned tt tx'
    sweep_body tx (err e) = failed e tx

    abbrev sweep_update : Io → ℤ → ℤ → Db trees → List K → Ended trees (Unit {0}) × Db trees
    sweep_update io now clock db [] = (gave (ok tt), db)
    sweep_update io now clock db (k ∷ ks) =
        update trees io (λ tx. sweep_body tx (sweep_keys now clock tx (k ∷ ks))) db

    unfoldable pub sweep_expired : Io → ℤ → ℤ → Db trees → Ended trees (Unit {0}) × Db trees
    sweep_expired io now clock db =
        if db.is_closed
        then (gave (ok tt), db)
        else sweep_update io now clock db
            (due_keys now sweep_batch_limit (exp_table.items db.state.exp))
