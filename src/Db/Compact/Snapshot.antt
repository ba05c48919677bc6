-- ===== src/Db/Compact/Snapshot.antt =====
-- The snapshot of `writeSnapshot` replays to a state that shows what the frozen state showed.
use btypedb.Prelude.{
  ℕ, suc, ◌≤◌, ◌≡◌, refl, sym, subst, ap, true, Option, none, some, List, [], ◌∷◌, ok, ◌>>=◌,
  >>=-eq-ok, arith, Bool-cases, inl, inr, length, All,
}
use btypedb.Prelude.Int.{ℤ, ltb_ℤ, pos, IsInt64}
use btypedb.Prelude.Order.{Order}
use btypedb.Bytes.{Bytes}
use btypedb.Wal.Record.{WalRecord, frame_of, length-frame_of, max_part_len}
use btypedb.Wal.Replay.Groups.{IsMember, IsGroup, group_bytes, apply_all}
use btypedb.Wal.Replay.Crash.{log_of, apply_groups}
use btypedb.Codec.{RoundTrips}
use btypedb.Encrypt.{append_sealed_record}
use btypedb.Encrypt.Laws.{IsSound, append_sealed_record-open}
use btypedb.State.{Trees, DbState, set, expired}
use btypedb.State.Reads.{ttl_of}
use btypedb.Tx.Ranges.{unexpired}
use btypedb.Tx.Writes.{write_op, write_value}
use btypedb.Tx.Log.{write_op-limits}
use btypedb.Db.Apply.{Format, apply_record}
use btypedb.Db.Replay.{apply_record-set}
use btypedb.Db.Log.{apply}
use btypedb.Db.Compact.{snap_op, snap_value, snapshot_record, snapshot_records, all_bytes}

-- The deadline that a record carries.
abbrev pub deadline_or_zero : Option ℤ → ℤ
deadline_or_zero none = pos 0
deadline_or_zero (some d) = d

abbrev pub IsDeadline : Option ℤ → Type 0
IsDeadline none = Unit
IsDeadline (some d) = (ltb_ℤ (pos 0) d ≡ true) × IsInt64 d

snap_op-write_op : (c : Option ℤ) → IsDeadline c → snap_op c ≡ write_op (deadline_or_zero c)
snap_op-write_op none h = refl
snap_op-write_op (some d) h = rw h.0

snap_value-write_value :
    (c : Option ℤ) (vb : Bytes)
    → IsDeadline c
    → snap_value c vb ≡ write_value (deadline_or_zero c) vb
snap_value-write_value none vb h = refl
snap_value-write_value (some d) vb h = rw h.0

deadline-IsInt64 : (c : Option ℤ) → IsDeadline c → IsInt64 (deadline_or_zero c)
deadline-IsInt64 none h = omega arith
deadline-IsInt64 (some d) h = h.1

module _ {K : Type 0} {o : Order K} {V : Type 0} (trees : Trees o V) (format : Format K V) where
  open format use {key_codec, val_codec, cipher}

  -- A record that sets one pair.
  record Sets (c : Option ℤ) (k : K) (v : V) (rec : Bytes) : Type 0 where
    wal : WalRecord
    frame_eq : rec ≡ frame_of wal
    member : IsMember wal
    applies :
        (t : DbState trees)
        → apply_record trees format t wal ≡ ok (set trees t k v (deadline_or_zero c))

  snapshot_record-Sets :
      (rand : Option Bytes) (c : Option ℤ) (k : K) (v : V) (rec : Bytes)
      → RoundTrips key_codec
      → RoundTrips val_codec
      → IsSound cipher rand
      → IsDeadline c
      → snapshot_record trees format rand c k v ≡ ok rec
      → length rec ≤ max_part_len
      → Sets c k v rec
  unfolding snapshot_record
  snapshot_record-Sets rand c k v rec key_round val_round sound h e small =
      let d = deadline_or_zero c in
      let (kb, ke, e1) =
        >>=-eq-ok (key_codec.encode k)
          (λ b. val_codec.encode v >>= λ w.
            append_sealed_record [] cipher rand (snap_op c) b (snap_value c w))
          e in
      let (vb, ve, e2) =
        >>=-eq-ok (val_codec.encode v)
          (λ w. append_sealed_record [] cipher rand (snap_op c) kb (snap_value c w)) e1 in
      let sealed : append_sealed_record [] cipher rand (write_op d) kb (write_value d vb) ≡ ok rec =
        rw (← snap_op-write_op c h, ← snap_value-write_value c vb h) e2 in
      let (stored, out, opens) =
        append_sealed_record-open cipher rand (write_op d) [] kb (write_value d vb) rec sound
          sealed in
      let wal : WalRecord = record { op = write_op d; key = kb; val = stored } in
      let (lo, hi, no_batch) = write_op-limits trees format d in
      let size = length-frame_of wal in
      record {
        wal = wal;
        frame_eq = out;
        member = record {
          fits = record {
            op_lo = lo;
            op_hi = hi;
            key_fits = omega (arith, ap length out, size);
            val_fits = omega (arith, ap length out, size);
          };
          not_batch = no_batch;
        };
        applies = λ t.
            apply_record-set trees format t k v d kb vb stored (deadline-IsInt64 c h)
              (key_round k kb ke) (val_round v vb ve) opens;
      }

  -- The sets of a sequence of pairs, with the deadlines of a state.
  abbrev pub restored : DbState trees → DbState trees → List (K × V) → DbState trees
  restored snap t [] = t
  restored snap t ((k, v) ∷ l) =
      restored snap (set trees t k v (deadline_or_zero (ttl_of trees snap k))) l

  -- The log of a snapshot.
  pub record Restores (snap : DbState trees) (l : List (K × V)) (recs : List Bytes) : Type 0 where
    pub groups : List (List WalRecord)
    pub grouped : All IsGroup groups
    pub bytes_eq : all_bytes recs ≡ log_of groups
    pub applies :
        (t : DbState trees) → apply_groups (apply trees format) t groups ≡ ok (restored snap t l)

  module _ (key_round : RoundTrips key_codec) (val_round : RoundTrips val_codec)
      (rands : ℕ → Option Bytes) (sound : (n : ℕ) → IsSound cipher (rands n)) (snap : DbState trees)
      (deadlines : (k : K) → IsDeadline (ttl_of trees snap k)) (now : ℤ) where
    more-Restores :
        (k : K) (v : V) (rec : Bytes) (l : List (K × V)) (recs : List Bytes)
        → Sets (ttl_of trees snap k) k v rec
        → Restores snap l recs
        → Restores snap ((k, v) ∷ l) (rec ∷ recs)
    unfolding group_bytes apply_all
    more-Restores k v rec l recs s r = record {
      groups = (s.wal ∷ []) ∷ r.groups;
      grouped = (
        record { some_record = omega arith; countable = omega arith; members = (s.member, tt) },
        r.grouped,
      );
      bytes_eq = rw (s.frame_eq, r.bytes_eq);
      applies = λ t.
          rw (s.applies t) (r.applies (set trees t k v (deadline_or_zero (ttl_of trees snap k))));
    }

    pub snapshot_records-Restores :
        (n : ℕ) (l : List (K × V)) (recs : List Bytes)
        → snapshot_records trees format rands snap now n l ≡ ok recs
        → All (λ b. length b ≤ max_part_len) recs
        → Restores snap (unexpired trees snap now l) recs
    unfolding snapshot_records unexpired
    snapshot_records-Restores n [] recs e small =
        let same_recs : [] ≡ recs = cc e in
        subst (Restores snap []) same_recs
          (record { groups = []; grouped = tt; bytes_eq = refl; applies = λ t. refl })
    snapshot_records-Restores n ((k, v) ∷ l) recs e small =
        elim (Bool-cases (expired trees snap k now)) [
          | inl gone ↦
              rw gone (snapshot_records-Restores n l recs (rw (snapshot_records, gone) at e) small)
          | inr live ↦
              let (rec, one, e1) =
                >>=-eq-ok (snapshot_record trees format (rands n) (ttl_of trees snap k) k v)
                  (λ b.
                    snapshot_records trees format rands snap now (suc n) l >>= λ bs. ok (b ∷ bs))
                  (rw (snapshot_records, live) at e) in
              let (rest, others, e2) =
                >>=-eq-ok (snapshot_records trees format rands snap now (suc n) l)
                  (λ bs. ok (rec ∷ bs)) e1 in
              let same_recs : rec ∷ rest ≡ recs = cc e2 in
              let fit = subst (All (λ b. length b ≤ max_part_len)) (sym same_recs) small in
              rw live (
                subst (Restores snap ((k, v) ∷ unexpired trees snap now l)) same_recs (
                  more-Restores k v rec (unexpired trees snap now l) rest
                    (snapshot_record-Sets (rands n) (ttl_of trees snap k) k v rec key_round
                      val_round (sound n) (deadlines k) one fit.0)
                    (snapshot_records-Restores (suc n) l rest others fit.1)))
        ]
