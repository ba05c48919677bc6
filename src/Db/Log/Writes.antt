-- ===== src/Db/Log/Writes.antt =====
-- The writes outside a transaction keep the log.
use btypedb.Prelude.{
  ℕ, ◌+◌, ◌≤◌, ◌≡◌, refl, ap, ◌∙◌, sym, subst, Bool, not, none, [], ◌∷◌, ◌++◌, ok, length, arith,
  Bool-cases, Result-cases, inl, inr, length-append,
}
use btypedb.Prelude.Int.{ℤ, IsInt64}
use btypedb.Prelude.Order.{Order}
use btypedb.Bytes.{Bytes}
use btypedb.Wal.Record.{
  WalRecord, op_delete, max_part_len, frame_of, frame_size, length-frame_of, append_record,
}
use btypedb.Wal.Replay.Groups.{group_bytes, IsMember, apply_all}
use btypedb.Codec.{RoundTrips}
use btypedb.Encrypt.{append_sealed_record}
use btypedb.Encrypt.Laws.{IsSound, append_sealed_record-open, append_sealed_record-delete}
use btypedb.State.{Trees, DbState, set, delete, expired}
use btypedb.Db.Apply.{Format, apply_record}
use btypedb.Db.Replay.{forget, forget-set, forget-delete, apply_record-set, apply_record-delete}
use btypedb.Db.Handle.{
  Db, Io, WriteOutcome, wrote, cut_at, can_write, appended, maybe_auto_compact, write_log,
  append_to_log, wait_durable,
}
use btypedb.Db.Writes.{
  db_set_internal, finish_set, db_delete, finish_delete, guarded_append, acknowledge,
}
use btypedb.Db.Log.{IsDurableLog, Keeps-IsDurableLog, maybe_auto_compact-Keeps, wait_durable-Keeps}
use btypedb.Db.Log.Commit.{can_write-ok, write_log-wrote, write_log-cut}
use btypedb.Tx.Writes.{write_op, write_value}
use btypedb.Tx.Log.{write_op-limits}

module _ {K : Type 0} {o : Order K} {V : Type 0} (trees : Trees o V) (format : Format K V)
    (init : DbState trees) (hdr : Bytes) where
  open format use {key_codec, val_codec, cipher}

  module _ (io : Io) (db : Db trees) (h : IsDurableLog trees format init hdr db) where
    abbrev Small : Db trees → Type 0
    Small db' = length db'.file.content ≤ length db.file.content + max_part_len

    wait-content :
        (b : Bool) (seq : ℕ) (s : DbState trees) (db1 : Db trees)
        → length (wait_durable trees b seq (record db1 { state = s })).1.file.content
          ≡ length db1.file.content
    wait-content b seq s db1 =
        ap length (wait_durable-Keeps trees format b seq (record db1 { state = s })).same_content

    auto-content :
        (db1 : Db trees)
        → length (maybe_auto_compact trees db1).file.content ≡ length db1.file.content
    auto-content db1 = ap length (maybe_auto_compact-Keeps trees format db1).same_content

    -- One record that replays to the new state.
    one_record :
        (rec : WalRecord) (s' : DbState trees)
        → db.write_err ≡ none
        → IsMember rec
        → apply_record trees format (forget trees db.state) rec ≡ ok (forget trees s')
        → IsDurableLog trees format init hdr
            (record (maybe_auto_compact trees (appended trees db (frame_of rec))) { state = s' })
    unfolding group_bytes apply_all
    one_record rec s' clean m a =
        write_log-wrote trees format init hdr db (rec ∷ []) s' h clean
          (record { some_record = omega arith; countable = omega arith; members = (m, tt) }) (rw a)

    module _ (key : K) (value : V) (d : ℤ) (kb vb buf : Bytes) (key_round : RoundTrips key_codec)
        (val_round : RoundTrips val_codec) (ke : key_codec.encode key ≡ ok kb)
        (ve : val_codec.encode value ≡ ok vb) (int : IsInt64 d) (sound : IsSound cipher io.rand)
        (sealed : append_sealed_record [] cipher io.rand (write_op d) kb (write_value d vb)
          ≡ ok buf)
        (clean : db.write_err ≡ none) where
      finish_set-IsDurableLog :
          (w : WriteOutcome)
          → Small (finish_set trees format io key value d (write_log trees w db buf)).1
          → IsDurableLog trees format init hdr
              (finish_set trees format io key value d (write_log trees w db buf)).1
      unfolding write_log acknowledge
      finish_set-IsDurableLog (cut_at n) small = write_log-cut trees format init hdr db n buf h
      finish_set-IsDurableLog wrote small =
          let (stored, out, opens) =
            append_sealed_record-open cipher io.rand (write_op d) [] kb (write_value d vb) buf sound
              sealed in
          let rec : WalRecord = record { op = write_op d; key = kb; val = stored } in
          let db1 = maybe_auto_compact trees (appended trees db buf) in
          let s = set trees db1.state key value d in
          let unmoved : db1.state ≡ db.state =
            (maybe_auto_compact-Keeps trees format (appended trees db buf)).same_state in
          let replays : apply_record trees format (forget trees db.state) rec
              ≡ ok (forget trees s) =
            apply_record-set trees format (forget trees db.state) key value d kb vb stored int
              (key_round key kb ke) (val_round value vb ve) opens
            ∙ ap ok (forget-set trees db.state key value d)
            ∙ ap (λ (t : DbState trees). ok (forget trees (set trees t key value d)))
                (sym unmoved) in
          let grown : db.file.content ++ buf ≡ db.file.content ++ frame_of rec =
            ap (λ b. db.file.content ++ b) out in
          let fits : frame_size rec ≤ max_part_len = omega (
            arith,
            small,
            wait-content io.sync_ok db1.append_seq s db1,
            auto-content (appended trees db buf),
            length-append db.file.content (frame_of rec),
            ap length grown,
            length-frame_of rec,
          ) in
          let (lo, hi, no_batch) = write_op-limits trees format d in
          let member : IsMember rec = record {
            fits = record {
              op_lo = lo;
              op_hi = hi;
              key_fits = omega arith;
              val_fits = omega arith;
            };
            not_batch = no_batch;
          } in
          Keeps-IsDurableLog trees format init hdr _ _
            (wait_durable-Keeps trees format io.sync_ok _ _)
            (subst
              (λ b.
                IsDurableLog trees format init hdr
                  (record (maybe_auto_compact trees (appended trees db b)) { state = s }))
              (sym out) (one_record rec s clean member replays))

    -- `Set` and `SetTTL` keep the log, on every branch.
    pub db_set_internal-IsDurableLog :
        (key : K) (value : V) (d : ℤ)
        → RoundTrips key_codec
        → RoundTrips val_codec
        → IsInt64 d
        → IsSound cipher io.rand
        → Small (db_set_internal trees format io db key value d).1
        → IsDurableLog trees format init hdr (db_set_internal trees format io db key value d).1
    unfolding db_set_internal guarded_append append_to_log
    db_set_internal-IsDurableLog key value d key_round val_round int sound small =
        elim (Result-cases (key_codec.encode key)) [
          | inr (x, ke) ↦ rw (db_set_internal, ke) h
          | inl (kb, ke) ↦ elim (Result-cases (val_codec.encode value)) [
            | inr (x, ve) ↦ rw (db_set_internal, guarded_append, append_to_log, ke, ve) h
            | inl (vb, ve) ↦ elim (Result-cases (can_write trees db)) [
              | inr (x, e) ↦ rw (db_set_internal, guarded_append, append_to_log, ke, ve, e) h
              | inl (u, e) ↦
                  elim (Result-cases
                    (append_sealed_record [] cipher io.rand (write_op d) kb (write_value d vb))) [
                      | inr (x, se) ↦
                          rw (db_set_internal, guarded_append, append_to_log, ke, ve, e, se) h
                      | inl (buf, se) ↦
                          rw (db_set_internal, guarded_append, append_to_log, ke, ve, e, se)
                            (finish_set-IsDurableLog key value d kb vb buf key_round val_round ke ve
                              int sound se (can_write-ok trees db u e) io.write
                              (rw (db_set_internal, guarded_append, append_to_log, ke, ve, e, se) at
                                small))
                    ]
            ]
          ]
        ]

    plain_delete :
        (kb : Bytes)
        → append_sealed_record [] cipher io.rand op_delete kb []
          ≡ ok (frame_of (record { op = op_delete; key = kb; val = [] }))
    unfolding append_record
    plain_delete kb = (append_sealed_record-delete cipher io.rand op_delete [] kb [] refl).0

    module _ (key : K) (kb : Bytes) (visible : Bool) (key_round : RoundTrips key_codec)
        (ke : key_codec.encode key ≡ ok kb) (clean : db.write_err ≡ none) where
      deletion : WalRecord
      deletion = record { op = op_delete; key = kb; val = [] }

      finish_delete-IsDurableLog :
          (w : WriteOutcome)
          → Small
              (finish_delete trees format io key visible
                (write_log trees w db (frame_of deletion))).1
          → IsDurableLog trees format init hdr
              (finish_delete trees format io key visible
                (write_log trees w db (frame_of deletion))).1
      unfolding write_log acknowledge deletion
      finish_delete-IsDurableLog (cut_at n) small =
          write_log-cut trees format init hdr db n (frame_of deletion) h
      finish_delete-IsDurableLog wrote small =
          let db1 = maybe_auto_compact trees (appended trees db (frame_of deletion)) in
          let s = (delete trees db1.state key).0 in
          let unmoved : db1.state ≡ db.state =
            (maybe_auto_compact-Keeps trees format
              (appended trees db (frame_of deletion))).same_state in
          let replays : apply_record trees format (forget trees db.state) deletion
              ≡ ok (forget trees s) =
            apply_record-delete trees format (forget trees db.state) key kb (key_round key kb ke)
            ∙ ap ok (forget-delete trees db.state key)
            ∙ ap (λ (t : DbState trees). ok (forget trees (delete trees t key).0)) (sym unmoved) in
          let fits : length kb ≤ max_part_len = omega (
            arith,
            small,
            wait-content io.sync_ok db1.append_seq s db1,
            auto-content (appended trees db (frame_of deletion)),
            length-append db.file.content (frame_of deletion),
            length-frame_of deletion,
          ) in
          let member : IsMember deletion = record {
            fits = record {
              op_lo = omega arith;
              op_hi = omega arith;
              key_fits = fits;
              val_fits = omega arith;
            };
            not_batch = refl;
          } in
          Keeps-IsDurableLog trees format init hdr _ _
            (wait_durable-Keeps trees format io.sync_ok _ _)
            (one_record deletion s clean member replays)

    -- `Delete` keeps the log, on every branch.
    pub db_delete-IsDurableLog :
        (now : ℤ) (key : K)
        → RoundTrips key_codec
        → Small (db_delete trees format io now db key).1
        → IsDurableLog trees format init hdr (db_delete trees format io now db key).1
    unfolding db_delete append_to_log deletion
    db_delete-IsDurableLog now key key_round small = elim (Result-cases (key_codec.encode key)) [
      | inr (x, ke) ↦ rw (db_delete, ke) h
      | inl (kb, ke) ↦ elim (Result-cases (can_write trees db)) [
        | inr (x, e) ↦ rw (db_delete, ke, e) h
        | inl (u, e) ↦ elim (Bool-cases (trees.data_map.contains db.state.pairs key)) [
          | inr missing ↦ rw (db_delete, ke, e, missing) h
          | inl there ↦
              rw (db_delete, append_to_log, ke, e, there, plain_delete kb)
                (finish_delete-IsDurableLog key kb (not (expired trees db.state key now)) key_round
                  ke (can_write-ok trees db u e) io.write
                  (rw (db_delete, append_to_log, ke, e, there, plain_delete kb) at small))
        ]
      ]
    ]
