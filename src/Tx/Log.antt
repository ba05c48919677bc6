-- ===== src/Tx/Log.antt =====
-- The pending bytes of a transaction are the records of its writes, and replaying them leads from
-- the state it began with to its own.
use btypedb.Prelude.{
  ℕ, subst, sym, ◌+◌, ◌%◌, ◌^◌, ◌≤◌, ◌<◌, ◌≡◌, refl, ap, ◌∙◌, Bool, false, Option, List, [], ◌∷◌,
  ◌++◌, Result, ok, >>=-eq-ok, length, length-append, All, All-append, append-nil, arith,
  Bool-cases, inl, inr, ◌⊎◌, err-ne-ok, ◌==◌,
}
use btypedb.Prelude.Int.{ℤ, IsInt64}
use btypedb.Prelude.Order.{Order}
use btypedb.Bytes.{Bytes}
use btypedb.Wal.Record.{
  WalRecord, op_delete, frame_of, frame_size, length-frame_of, max_part_len, append_record,
}
use btypedb.Wal.Replay.Groups.{frames, IsMember, apply_all}
use btypedb.Wal.Replay.Append.{frames-append, apply_all-append}
use btypedb.Codec.{RoundTrips}
use btypedb.Encrypt.{append_sealed_record}
use btypedb.Encrypt.Laws.{IsSound, append_sealed_record-open}
use btypedb.State.{Trees, DbState, set, delete}
use btypedb.Db.Apply.{Format, apply_record}
use btypedb.Db.Replay.{forget, forget-set, forget-delete, apply_record-set, apply_record-delete}
use btypedb.Tx.{Tx, new_tx, set_internal, tx_delete, logged_set, logged_delete}
use btypedb.Tx.Writes.{write_op, write_value}

module _ {K : Type 0} {o : Order K} {V : Type 0} (trees : Trees o V) (format : Format K V) where
  open format use {key_codec, val_codec, cipher}

  abbrev pub replayed : DbState trees → List WalRecord → Result (DbState trees)
  replayed = apply_all (apply_record trees format)

  -- `recs` are the records that the transaction has written since it began from `base`.
  pub record IsLogged (base : DbState trees) (tx : Tx trees) : Type 0 where
    pub recs : List WalRecord
    pub pending_eq : tx.pending ≡ frames recs
    pub nops_eq : tx.nops ≡ length recs
    pub members : All IsMember recs
    pub applies : replayed (forget trees base) recs ≡ ok (forget trees tx.state)

  pub new_tx-IsLogged : (snap : DbState trees) (w : Bool) → IsLogged snap (new_tx trees snap w)
  unfolding apply_all
  new_tx-IsLogged snap w = record {
    recs = [];
    pending_eq = refl;
    nops_eq = refl;
    members = tt;
    applies = refl;
  }

  module _ (base : DbState trees) (tx : Tx trees) (l : IsLogged base tx)
      (room : tx.nops + 1 < 2 ^ 64) where
    -- One more record, that replays to the new state.
    one_more :
        (rec : WalRecord) (s : DbState trees)
        → IsMember rec
        → apply_record trees format (forget trees tx.state) rec ≡ ok (forget trees s)
        → IsLogged base (record tx {
          pending = tx.pending ++ frame_of rec;
          nops = (tx.nops + 1) % 2 ^ 64;
          state = s;
        })
    one_more rec s m a = record {
      recs = l.recs ++ (rec ∷ []);
      pending_eq = rw (l.pending_eq, frames-append l.recs (rec ∷ []), append-nil (frame_of rec));
      nops_eq = omega (arith, l.nops_eq, length-append l.recs (rec ∷ []));
      members = All-append IsMember l.recs (rec ∷ []) l.members (m, tt);
      applies =
          apply_all-append (apply_record trees format) l.recs (rec ∷ []) (forget trees base)
            (forget trees tx.state) l.applies
          ∙ (unfold apply_all in rw a);
    }

  -- The transaction has one record more, of this operation, and this state.
  pub record WritesOne (base : DbState trees) (tx : Tx trees) (l : IsLogged base tx)
      (tx' : Tx trees) (op : ℕ) (s : DbState trees) : Type 0 where
    pub rec : WalRecord
    pub logged : IsLogged base tx'
    pub recs_eq : logged.recs ≡ l.recs ++ (rec ∷ [])
    pub op_eq : rec.op ≡ op
    pub state_eq : tx'.state ≡ s

  -- What a write that succeeded has done.
  record Written (rand : Option Bytes) (tx : Tx trees) (key : K) (value : V) (d : ℤ)
      (tx' : Tx trees) : Type 0 where
    kb : Bytes
    vb : Bytes
    pending : Bytes
    key_encoded : key_codec.encode key ≡ ok kb
    value_encoded : val_codec.encode value ≡ ok vb
    sealed :
        append_sealed_record tx.pending cipher rand (write_op d) kb (write_value d vb) ≡ ok pending
    result : tx' ≡ logged_set trees format tx key value d pending

  set_internal-Written :
      (rand : Option Bytes) (tx : Tx trees) (key : K) (value : V) (d : ℤ) (tx' : Tx trees)
      → set_internal trees format rand tx key value d ≡ ok tx'
      → Written rand tx key value d tx'
  unfolding set_internal
  set_internal-Written rand tx key value d tx' h = elim (Bool-cases tx.done) [
    | inl over ↦ absurd (err-ne-ok (rw over at h))
    | inr open_tx ↦ elim (Bool-cases tx.writable) [
      | inl writable ↦
          let (kb, ke, h1) = >>=-eq-ok (key_codec.encode key) _ (rw (open_tx, writable) at h) in
          let (vb, ve, h2) = >>=-eq-ok (val_codec.encode value) _ h1 in
          let (pending, pe, h3) =
            >>=-eq-ok
              (append_sealed_record tx.pending cipher rand (write_op d) kb (write_value d vb)) _
              h2 in
          record {
            kb = kb;
            vb = vb;
            pending = pending;
            key_encoded = ke;
            value_encoded = ve;
            sealed = pe;
            result = cc h3;
          }
      | inr read_only ↦ absurd (err-ne-ok (rw (open_tx, read_only) at h))
    ]
  ]

  pub write_op-limits : (d : ℤ) → (1 ≤ write_op d) × (write_op d ≤ 4) × ((write_op d == 3) ≡ false)
  write_op-limits d = ground arith

  length-append_record :
      (dst kb : Bytes) → length (append_record dst op_delete kb []) ≡ length dst + length kb + 13
  unfolding append_record
  length-append_record dst kb = omega (
    arith,
    length-append dst (frame_of (record { op = op_delete; key = kb; val = [] })),
    length-frame_of (record { op = op_delete; key = kb; val = [] }),
  )

  module _ (base : DbState trees) (tx : Tx trees) (l : IsLogged base tx)
      (room : tx.nops + 1 < 2 ^ 64) (key_round : RoundTrips key_codec) where
    -- A write that succeeds, of a transaction with less than 2 ^ 64 - 1 records, appends exactly one
    -- record, of a set with or without a deadline, and makes its change to the state; replaying the
    -- records of the transaction still leads from the state it began with to its own. It needs codecs
    -- that round-trip, a lawful cipher, an int64 deadline, and a record within the size that replay
    -- accepts.
    pub set_internal-WritesOne :
        (rand : Option Bytes) (key : K) (value : V) (d : ℤ) (tx' : Tx trees)
        → RoundTrips val_codec
        → IsSound cipher rand
        → IsInt64 d
        → set_internal trees format rand tx key value d ≡ ok tx'
        → length tx'.pending ≤ length tx.pending + max_part_len
        → WritesOne base tx l tx' (write_op d) (set trees tx.state key value d)
    unfolding one_more
    set_internal-WritesOne rand key value d tx' val_round sound int h small =
        let w = set_internal-Written rand tx key value d tx' h in
        let (stored, out, opens) =
          append_sealed_record-open cipher rand (write_op d) tx.pending w.kb (write_value d w.vb)
            w.pending sound w.sealed in
        let rec : WalRecord = record { op = write_op d; key = w.kb; val = stored } in
        let s = set trees tx.state key value d in
        let replays : apply_record trees format (forget trees tx.state) rec ≡ ok (forget trees s) =
          apply_record-set trees format (forget trees tx.state) key value d w.kb w.vb stored int
            (key_round key w.kb w.key_encoded) (val_round value w.vb w.value_encoded) opens
          ∙ ap ok (forget-set trees tx.state key value d) in
        let fits : frame_size rec ≤ max_part_len = omega (
          arith,
          ap (λ (t : Tx trees). length t.pending) w.result,
          ap length out,
          length-append tx.pending (frame_of rec),
          length-frame_of rec,
          small,
        ) in
        let (lo, hi, no_batch) = write_op-limits d in
        let member : IsMember rec = record {
          fits = record { op_lo = lo; op_hi = hi; key_fits = omega arith; val_fits = omega arith };
          not_batch = no_batch;
        } in
        let same : tx' ≡ record tx {
          pending = tx.pending ++ frame_of rec;
          nops = (tx.nops + 1) % 2 ^ 64;
          state = s;
        } =
          w.result ∙ ap (logged_set trees format tx key value d) out in
        subst (λ t. WritesOne base tx l t (write_op d) s) (sym same)
          (record {
            rec = rec;
            logged = one_more base tx l room rec s member replays;
            recs_eq = refl;
            op_eq = refl;
            state_eq = refl;
          })

    pub logged_delete-IsLogged :
        (key : K) (kb : Bytes)
        → key_codec.encode key ≡ ok kb
        → length kb ≤ max_part_len
        → IsLogged base (logged_delete trees format tx key kb)
    unfolding append_record
    logged_delete-IsLogged key kb e small =
        let rec : WalRecord = record { op = op_delete; key = kb; val = [] } in
        let s = (delete trees tx.state key).0 in
        let replays : apply_record trees format (forget trees tx.state) rec ≡ ok (forget trees s) =
          apply_record-delete trees format (forget trees tx.state) key kb (key_round key kb e)
          ∙ ap ok (forget-delete trees tx.state key) in
        let member : IsMember rec = record {
          fits = record {
            op_lo = omega arith;
            op_hi = omega arith;
            key_fits = small;
            val_fits = omega arith;
          };
          not_batch = refl;
        } in
        one_more base tx l room rec s member replays

    -- What a removal that succeeded has done: nothing, or one logged removal.
    tx_delete-cases :
        (now : ℤ) (key : K) (seen : Bool) (tx' : Tx trees)
        → tx_delete trees format now tx key ≡ ok (seen, tx')
        → (tx' ≡ tx)
          ⊎ ((kb : Bytes) × (key_codec.encode key ≡ ok kb)
              × (tx' ≡ logged_delete trees format tx key kb))
    unfolding tx_delete
    tx_delete-cases now key seen tx' h = elim (Bool-cases tx.done) [
      | inl over ↦ absurd (err-ne-ok (rw over at h))
      | inr open_tx ↦ elim (Bool-cases tx.writable) [
        | inl writable ↦ elim (Bool-cases (trees.data_map.contains tx.state.pairs key)) [
          | inl there ↦
              let (kb, ke, h1) =
                >>=-eq-ok (key_codec.encode key) _ (rw (open_tx, writable, there) at h) in
              inr (kb, ke, ground (arith, h1))
          | inr missing ↦ inl (ground (arith, rw (open_tx, writable, missing) at h))
        ]
        | inr read_only ↦ absurd (err-ne-ok (rw (open_tx, read_only) at h))
      ]
    ]

    -- A removal leaves the transaction logged, on every branch that succeeds.
    pub tx_delete-IsLogged :
        (now : ℤ) (key : K) (seen : Bool) (tx' : Tx trees)
        → tx_delete trees format now tx key ≡ ok (seen, tx')
        → length tx'.pending ≤ length tx.pending + max_part_len
        → IsLogged base tx'
    tx_delete-IsLogged now key seen tx' h small = elim (tx_delete-cases now key seen tx' h) [
      | inl same ↦ rw same l
      | inr (kb, ke, same) ↦
          let rec : WalRecord = record { op = op_delete; key = kb; val = [] } in
          let fits : length kb ≤ max_part_len = omega (
            arith,
            ap (λ (t : Tx trees). length t.pending) same,
            length-append_record tx.pending kb,
            small,
          ) in
          rw same (logged_delete-IsLogged key kb ke fits)
    ]
