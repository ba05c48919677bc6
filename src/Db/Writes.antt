-- ===== src/Db/Writes.antt =====
-- The writes of db.go: `Set`, `SetTTL`, `Delete`.
use btypedb.Prelude.{ℕ, Bool, false, not, [], Result, ok, err, ◌>>=◌, bad_argument, if◌then◌else◌}
use btypedb.Prelude.Int.{ℤ, pos, ◌+ℤ◌, leb_ℤ, wrap_int64}
use btypedb.Prelude.Order.{Order}
use btypedb.Bytes.{Bytes}
use btypedb.Wal.Record.{op_delete}
use btypedb.State.{Trees, set, delete, expired}
use btypedb.Db.Apply.{Format}
use btypedb.Db.Handle.{Io, Db, can_write, append_to_log, wait_durable}
use btypedb.Tx.Writes.{write_op, write_value}

module _ {K : Type 0} {o : Order K} {V : Type 0} (trees : Trees o V) (format : Format K V)
    (io : Io) where
  open format use {key_codec, val_codec}
  open trees use {data_map}

  -- `appendToLog` where writing is allowed.
  unfoldable pub guarded_append : Db trees → ℕ → Bytes → Bytes → Result (Unit {0}) × Db trees
  guarded_append db op kb vb = elim (can_write trees db) [
    | ok _ ↦ append_to_log trees format io db op kb vb
    | err e ↦ (err e, db)
  ]

  -- The acknowledgement waits for the sync, and keeps the result.
  unfoldable pub acknowledge {ℓ} : {A : Type ℓ} → A → Db trees → Result A × Db trees
  acknowledge a db =
      let (r, db') = wait_durable trees io.sync_ok db.append_seq db in (r >>= λ _. ok a, db')

  abbrev stored : Db trees → K → V → ℤ → Db trees
  stored db key value deadline = record db { state = set trees db.state key value deadline }

  abbrev pub finish_set : K → V → ℤ → Result (Unit {0}) × Db trees → Result (Unit {0}) × Db trees
  finish_set key value deadline (ok _, db) = acknowledge tt (stored db key value deadline)
  finish_set key value deadline (err e, db) = (err e, db)

  -- The bytes of the key and of the value.
  abbrev pub encoded : K → V → Result (Bytes × Bytes)
  encoded key value = do kb ← key_codec.encode key; vb ← val_codec.encode value; ok (kb, vb)

  unfoldable pub db_set_internal : Db trees → K → V → ℤ → Result (Unit {0}) × Db trees
  unfolding guarded_append acknowledge
  db_set_internal db key value deadline = elim (encoded key value) [
    | ok (kb, vb) ↦
        finish_set key value deadline
          (guarded_append db (write_op deadline) kb (write_value deadline vb))
    | err e ↦ (err e, db)
  ]

  unfoldable pub db_set : Db trees → K → V → Result (Unit {0}) × Db trees
  unfolding db_set_internal
  db_set db key value = db_set_internal db key value (pos 0)

  unfoldable pub db_set_ttl : ℤ → Db trees → K → V → ℤ → Result (Unit {0}) × Db trees
  unfolding db_set_internal
  db_set_ttl now db key value ttl =
      if leb_ℤ ttl (pos 0)
      then (err bad_argument, db)
      else db_set_internal db key value (wrap_int64 (now +ℤ ttl))

  abbrev pub finish_delete : K → Bool → Result (Unit {0}) × Db trees → Result Bool × Db trees
  finish_delete key visible (ok _, db) =
      acknowledge visible (record db { state = (delete trees db.state key).0 })
  finish_delete key visible (err e, db) = (err e, db)

  abbrev delete_allowed : ℤ → Db trees → K → Bytes → Result (Unit {0}) → Result Bool × Db trees
  delete_allowed now db key kb (err e) = (err e, db)
  delete_allowed now db key kb (ok _) =
      if not (data_map.contains db.state.pairs key)
      then (ok false, db)
      else finish_delete key (not (expired trees db.state key now))
          (append_to_log trees format io db op_delete kb [])

  unfoldable pub db_delete : ℤ → Db trees → K → Result Bool × Db trees
  unfolding acknowledge
  db_delete now db key = elim (key_codec.encode key) [
    | ok kb ↦ delete_allowed now db key kb (can_write trees db)
    | err e ↦ (err e, db)
  ]
