-- ===== src/Db/Apply.antt =====
-- The callback that `Open` of db.go gives to `replayLog`: one record applied to the state.
use btypedb.Prelude.{
  ℕ, Result, ok, err, ◌>>=◌, malformed_ttl, ◌==◌, ltb, if◌then◌else◌, length, take, drop, Option,
}
use btypedb.Prelude.Int.{pos, to_int64}
use btypedb.Prelude.Order.{Order}
use btypedb.Bytes.{Bytes, get_le}
use btypedb.Wal.Record.{WalRecord, op_set, op_delete, op_set_ttl, ttl_prefix_size}
use btypedb.Codec.{Codec}
use btypedb.Encrypt.{WalCipher, open_record}
use btypedb.State.{Trees, DbState, set, delete}

-- How a database writes its records.
pub record Format (K V : Type 0) : Type 0 where
  pub key_codec : Codec K
  pub val_codec : Codec V
  pub cipher : Option WalCipher

module _ {K : Type 0} {o : Order K} {V : Type 0} (trees : Trees o V) (format : Format K V) where
  open format use {key_codec, val_codec, cipher}

  abbrev pub apply_set : DbState trees → K → Bytes → Result (DbState trees)
  apply_set s key val_bytes = do val ← val_codec.decode val_bytes; ok (set trees s key val (pos 0))

  abbrev pub apply_set_ttl : DbState trees → K → Bytes → Result (DbState trees)
  apply_set_ttl s key val_bytes =
      if ltb (length val_bytes) ttl_prefix_size then err malformed_ttl else do
        val ← val_codec.decode (drop ttl_prefix_size val_bytes)
        ok (set trees s key val (to_int64 (get_le (take ttl_prefix_size val_bytes))))

  abbrev pub apply_op : DbState trees → ℕ → K → Bytes → Result (DbState trees)
  apply_op s op key val_bytes =
      if op == op_set
      then apply_set s key val_bytes
      else if op == op_set_ttl
      then apply_set_ttl s key val_bytes
      else if op == op_delete
      then ok (delete trees s key).0
      else ok s

  unfoldable pub apply_record : DbState trees → WalRecord → Result (DbState trees)
  apply_record s rec = do
    (key_bytes, val_bytes) ← open_record cipher rec.op rec.key rec.val
    key ← key_codec.decode key_bytes
    apply_op s rec.op key val_bytes
