-- ===== src/Tx/RangeLog.antt =====
-- `DeleteRange` logs one removal for each key of the range.
use btypedb.Prelude.{
  ℕ, ◌+◌, ◌^◌, ◌≤◌, ◌<◌, ◌≡◌, refl, List, [], ◌∷◌, ok, >>=-eq-ok, length, All, arith, Bool-cases,
  inl, inr, err-ne-ok,
}
use btypedb.Prelude.Int.{ℤ}
use btypedb.Prelude.Order.{Order}
use btypedb.Bytes.{Bytes}
use btypedb.Wal.Record.{max_part_len}
use btypedb.Codec.{RoundTrips}
use btypedb.State.{Trees, DbState, expired}
use btypedb.Db.Apply.{Format}
use btypedb.Tx.{Tx, logged_delete}
use btypedb.Tx.Ranges.{keys_below, encode_keys, delete_keys, tx_delete_range, count_visible}
use btypedb.Tx.Log.{IsLogged, logged_delete-IsLogged}

module _ {K : Type 0} {o : Order K} {V : Type 0} (trees : Trees o V) (format : Format K V)
    (key_round : RoundTrips format.key_codec) (base : DbState trees) where
  -- A key with its encoding, within the limits of a record.
  abbrev pub IsEncoded : K × Bytes → Type 0
  IsEncoded (k, kb) = (format.key_codec.encode k ≡ ok kb) × (length kb ≤ max_part_len)

  delete_keys-IsLogged :
      (keys : List (K × Bytes)) (now : ℤ) (visible : ℕ) (tx : Tx trees)
      → All IsEncoded keys
      → tx.nops + length keys < 2 ^ 64
      → IsLogged trees format base tx
      → IsLogged trees format base (delete_keys trees format now visible tx keys).1
  unfolding delete_keys
  delete_keys-IsLogged [] now visible tx encoded room l = l
  delete_keys-IsLogged ((k, kb) ∷ keys) now visible tx encoded room l =
      delete_keys-IsLogged keys now
        (count_visible trees format (expired trees tx.state k now) visible)
        (logged_delete trees format tx k kb) encoded.1 (omega arith)
        (logged_delete-IsLogged trees format base tx l (omega arith) key_round k kb encoded.0.0
          encoded.0.1)

  -- The keys of a range are encoded, if their encodings fit a record.
  encode_keys-IsEncoded :
      (keys : List K) (out : List (K × Bytes))
      → ((k : K) (kb : Bytes) → format.key_codec.encode k ≡ ok kb → length kb ≤ max_part_len)
      → encode_keys trees format keys ≡ ok out
      → All IsEncoded out × (length out ≡ length keys)
  unfolding encode_keys
  encode_keys-IsEncoded [] out small h = let e : [] ≡ out = cc h in rw (← e) (tt, refl)
  encode_keys-IsEncoded (k ∷ keys) out small h =
      let (kb, ke, h1) = >>=-eq-ok (format.key_codec.encode k) _ h in
      let (rest, re, h2) = >>=-eq-ok (encode_keys trees format keys) _ h1 in
      let (ok_rest, len) = encode_keys-IsEncoded keys rest small re in
      let e : (k, kb) ∷ rest ≡ out = cc h2 in
      rw (← e) (((ke, small k kb ke), ok_rest), omega (arith, len))

  -- A `DeleteRange` that succeeds keeps that replaying the records of the transaction leads from the
  -- state it began with to its own, for a key codec that round-trips and whose encodings fit a record.
  pub tx_delete_range-IsLogged :
      (now : ℤ) (tx : Tx trees) (min max : K) (count : ℕ) (tx' : Tx trees)
      → ((k : K) (kb : Bytes) → format.key_codec.encode k ≡ ok kb → length kb ≤ max_part_len)
      → tx.nops + length (keys_below trees max (trees.data_map.ascend tx.state.pairs min)) < 2 ^ 64
      → IsLogged trees format base tx
      → tx_delete_range trees format now tx min max ≡ ok (count, tx')
      → IsLogged trees format base tx'
  unfolding tx_delete_range
  tx_delete_range-IsLogged now tx min max count tx' small room l h = elim (Bool-cases tx.done) [
    | inl over ↦ absurd (err-ne-ok (rw over at h))
    | inr open_tx ↦ elim (Bool-cases tx.writable) [
      | inr read_only ↦ absurd (err-ne-ok (rw (open_tx, read_only) at h))
      | inl writable ↦
          let keys = keys_below trees max (trees.data_map.ascend tx.state.pairs min) in
          let (out, oe, h1) =
            >>=-eq-ok (encode_keys trees format keys) _ (rw (open_tx, writable) at h) in
          let (encoded, len) = encode_keys-IsEncoded keys out small oe in
          let e : (delete_keys trees format now 0 tx out).1 ≡ tx' = cc h1 in
          rw (← e) (delete_keys-IsLogged out now 0 tx encoded (omega (arith, len)) l)
    ]
  ]
