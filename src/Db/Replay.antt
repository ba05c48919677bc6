-- ===== src/Db/Replay.antt =====
-- One record of a write, replayed: the state changes as it did when the record was written. The
-- indexes are not in the log.
use btypedb.Prelude.{
  ◌≡◌, refl, ap, Option, none, some, [], ◌++◌, ok, false, ltb, length, take, drop, length-append,
  take-length_append, drop-length_append, arith, Bool-cases, inl, inr, Option-cases,
}
use btypedb.Prelude.Int.{
  ℤ, pos, IsInt64, ltb_ℤ, to_uint64, to_int64, to_uint64-lt, to_int64-to_uint64,
}
use btypedb.Prelude.Order.{Order}
use btypedb.Bytes.{Bytes, put_le, get_le, length-put_le, get_le-put_le}
use btypedb.Wal.Record.{op_delete, prepend_deadline}
use btypedb.Encrypt.{open_record}
use btypedb.Encrypt.Laws.{open_record-delete}
use btypedb.State.{Trees, DbState, set, delete, indexes_delete}
use btypedb.Db.Apply.{Format, apply_record}
use btypedb.Tx.Writes.{write_op, write_value}

module _ {K : Type 0} {o : Order K} {V : Type 0} (trees : Trees o V) where
  open trees use {data_map}

  -- The part of a state that the log holds.
  abbrev pub forget : DbState trees → DbState trees
  forget s = record s { idx = [] }

  indexes_delete-nil : (k : K) (c : Option V) → indexes_delete trees k c [] ≡ []
  indexes_delete-nil k none = refl
  indexes_delete-nil k (some v) = refl

  pub forget-set :
      (s : DbState trees) (k : K) (v : V) (d : ℤ)
      → set trees (forget s) k v d ≡ forget (set trees s k v d)
  unfolding set
  forget-set s k v d = rw (indexes_delete-nil k (data_map.set s.pairs k v).1)

  pub forget-delete :
      (s : DbState trees) (k : K) → (delete trees (forget s) k).0 ≡ forget (delete trees s k).0
  unfolding delete
  forget-delete s k = elim (Option-cases (data_map.delete s.pairs k).1) [
    | inl e ↦ rw (e, delete)
    | inr (v, e) ↦ rw (e, delete)
  ]

  -- All deadlines that are not positive are alike.
  set_no_deadline :
      (s : DbState trees) (k : K) (v : V) (d : ℤ)
      → ltb_ℤ (pos 0) d ≡ false
      → set trees s k v (pos 0) ≡ set trees s k v d
  unfolding set
  set_no_deadline s k v d h = rw h

  module _ (format : Format K V) where
    open format use {key_codec, val_codec, cipher}

    prefix-deadline :
        (d : ℤ) (vb : Bytes)
        → IsInt64 d
        → (ltb (length (prepend_deadline (to_uint64 d) vb)) 8 ≡ false)
          × (drop 8 (prepend_deadline (to_uint64 d) vb) ≡ vb)
          × (to_int64 (get_le (take 8 (prepend_deadline (to_uint64 d) vb))) ≡ d)
    unfolding prepend_deadline
    prefix-deadline d vb h =
        let w = put_le 8 (to_uint64 d) in
        let eight = length-put_le 8 (to_uint64 d) in
        let front : take 8 (w ++ vb) ≡ w = rw eight at (take-length_append w vb) in
        let back : drop 8 (w ++ vb) ≡ vb = rw eight at (drop-length_append w vb) in
        (
          ground (arith, length-append w vb, eight),
          back,
          rw (front, get_le-put_le 8 (to_uint64 d) (to_uint64-lt d)) (to_int64-to_uint64 d h),
        )

    pub apply_record-set :
        (s : DbState trees) (key : K) (value : V) (d : ℤ) (kb vb stored : Bytes)
        → IsInt64 d
        → key_codec.decode kb ≡ ok key
        → val_codec.decode vb ≡ ok value
        → open_record cipher (write_op d) kb stored ≡ ok (kb, write_value d vb)
        → apply_record trees format s (record { op = write_op d; key = kb; val = stored })
          ≡ ok (set trees s key value d)
    unfolding apply_record
    apply_record-set s key value d kb vb stored i ke ve oe = elim (Bool-cases (ltb_ℤ (pos 0) d)) [
      | inl ttl ↦
          let (long, back, deadline) = prefix-deadline d vb i in
          rw (oe, ke, ttl, long, back, ve, deadline)
      | inr plain ↦ rw (oe, ke, plain, ve) (ap ok (set_no_deadline s key value d plain))
    ]

    pub apply_record-delete :
        (s : DbState trees) (key : K) (kb : Bytes)
        → key_codec.decode kb ≡ ok key
        → apply_record trees format s (record { op = op_delete; key = kb; val = [] })
          ≡ ok (delete trees s key).0
    unfolding apply_record
    apply_record-delete s key kb ke = rw (open_record-delete cipher kb [], ke)
