-- ===== src/Db/Compact/Agreement.antt =====
-- States that show the same from a moment on, and the replay of the same records on both.
use btypedb.Prelude.{
  ◌≡◌, refl, true, false, List, [], ◌∷◌, Result, ok, >>=-eq-ok, ◌==◌, ltb, Bool-cases, Result-cases,
  inl, inr, length, take, drop,
}
use btypedb.Prelude.Int.{ℤ, leb_ℤ, pos, to_int64}
use btypedb.Prelude.Order.{Order}
use btypedb.Bytes.{Bytes, get_le}
use btypedb.Wal.Record.{WalRecord, op_set, op_set_ttl, op_delete, ttl_prefix_size}
use btypedb.Wal.Replay.Groups.{apply_all}
use btypedb.Wal.Replay.Crash.{apply_groups}
use btypedb.Encrypt.{open_record}
use btypedb.State.{Trees, DbState, get, set, delete}
use btypedb.State.Changes.{Change, changed}
use btypedb.State.Visible.{get-set, get-delete}
use btypedb.Db.Apply.{Format, apply_record}
use btypedb.Db.Log.{apply}

module _ {K : Type 0} {o : Order K} {V : Type 0} (trees : Trees o V) (now : ℤ) where
  -- At every moment from `now` on, every key shows the same.
  abbrev pub Agrees : DbState trees → DbState trees → Type 0
  Agrees s t = (k : K) (m : ℤ) → leb_ℤ now m ≡ true → get trees s k m ≡ get trees t k m

  set-Agrees :
      (s t : DbState trees) (k : K) (v : V) (d : ℤ)
      → Agrees s t
      → Agrees (set trees s k v d) (set trees t k v d)
  set-Agrees s t k v d h j m late =
      rw (get-set trees s k j v d m, get-set trees t k j v d m, h j m late)

  delete-Agrees :
      (s t : DbState trees) (k : K) → Agrees s t → Agrees (delete trees s k).0 (delete trees t k).0
  delete-Agrees s t k h j m late =
      rw ((get-delete trees s k j m).0, (get-delete trees t k j m).0, h j m late)

  changed-Agrees :
      (c : Change K V) (s t : DbState trees)
      → Agrees s t
      → Agrees (changed trees s c) (changed trees t c)
  changed-Agrees (Change.sets k v d) s t h = set-Agrees s t k v d h
  changed-Agrees (Change.deletes k) s t h = delete-Agrees s t k h
  changed-Agrees Change.nothing s t h = h

  module _ (format : Format K V) where
    open format use {key_codec, val_codec, cipher}

    -- A record that applies to one state makes the same change of every state.
    record IsChange (s s' : DbState trees) (r : WalRecord) : Type 0 where
      change : Change K V
      done : s' ≡ changed trees s change
      always : (t : DbState trees) → apply_record trees format t r ≡ ok (changed trees t change)

    module _ (s s' : DbState trees) (r : WalRecord) (kb vb : Bytes) (k : K)
        (oe : open_record cipher r.op r.key r.val ≡ ok (kb, vb)) (ke : key_codec.decode kb ≡ ok k)
        (e : apply_record trees format s r ≡ ok s') where
      is_set-IsChange : (r.op == op_set) ≡ true → IsChange s s' r
      unfolding apply_record
      is_set-IsChange op = elim (Result-cases (val_codec.decode vb)) [
        | inl (v, ve) ↦ record {
          change = Change.sets k v (pos 0);
          done = cc (rw (apply_record, oe, ke, op, ve) at e);
          always = λ t. rw (apply_record, oe, ke, op, ve);
        }
        | inr (x, ve) ↦ cc (rw (apply_record, oe, ke, op, ve) at e)
      ]

      is_set_ttl-IsChange : (r.op == op_set) ≡ false → (r.op == op_set_ttl) ≡ true → IsChange s s' r
      unfolding apply_record
      is_set_ttl-IsChange not_set op = elim (Bool-cases (ltb (length vb) ttl_prefix_size)) [
        | inl short ↦ cc (rw (apply_record, oe, ke, not_set, op, short) at e)
        | inr long ↦ elim (Result-cases (val_codec.decode (drop ttl_prefix_size vb))) [
          | inl (v, ve) ↦ record {
            change = Change.sets k v (to_int64 (get_le (take ttl_prefix_size vb)));
            done = cc (rw (apply_record, oe, ke, not_set, op, long, ve) at e);
            always = λ t. rw (apply_record, oe, ke, not_set, op, long, ve);
          }
          | inr (x, ve) ↦ cc (rw (apply_record, oe, ke, not_set, op, long, ve) at e)
        ]
      ]

      other-IsChange : (r.op == op_set) ≡ false → (r.op == op_set_ttl) ≡ false → IsChange s s' r
      unfolding apply_record
      other-IsChange not_set not_ttl = elim (Bool-cases (r.op == op_delete)) [
        | inl op ↦ record {
          change = Change.deletes k;
          done = cc (rw (apply_record, oe, ke, not_set, not_ttl, op) at e);
          always = λ t. rw (apply_record, oe, ke, not_set, not_ttl, op);
        }
        | inr unknown ↦ record {
          change = Change.nothing;
          done = cc (rw (apply_record, oe, ke, not_set, not_ttl, unknown) at e);
          always = λ t. rw (apply_record, oe, ke, not_set, not_ttl, unknown);
        }
      ]

      decoded-IsChange : IsChange s s' r
      decoded-IsChange = elim (Bool-cases (r.op == op_set)) [
        | inl op ↦ is_set-IsChange op
        | inr not_set ↦ elim (Bool-cases (r.op == op_set_ttl)) [
          | inl op ↦ is_set_ttl-IsChange not_set op
          | inr not_ttl ↦ other-IsChange not_set not_ttl
        ]
      ]

    apply_record-IsChange :
        (s s' : DbState trees) (r : WalRecord)
        → apply_record trees format s r ≡ ok s'
        → IsChange s s' r
    unfolding apply_record
    apply_record-IsChange s s' r e = elim (Result-cases (open_record cipher r.op r.key r.val)) [
      | inr (x, oe) ↦ cc (rw (apply_record, oe) at e)
      | inl (kv, oe) ↦ elim (Result-cases (key_codec.decode kv.0)) [
        | inr (x, ke) ↦ cc (rw (apply_record, oe, ke) at e)
        | inl (k, ke) ↦ decoded-IsChange s s' r kv.0 kv.1 k oe ke e
      ]
    ]

    -- The other of two runs, and what it ends in.
    abbrev pub Follows : Result (DbState trees) → DbState trees → Type 0
    Follows r s' = (t' : DbState trees) × (r ≡ ok t') × Agrees s' t'

    apply_all-Agrees :
        (rs : List WalRecord) (s t s' : DbState trees)
        → Agrees s t
        → apply_all (apply trees format) s rs ≡ ok s'
        → Follows (apply_all (apply trees format) t rs) s'
    unfolding apply_all
    apply_all-Agrees [] s t s' h e = (t, refl, (let same : s ≡ s' = cc e in rw (← same) h))
    apply_all-Agrees (r ∷ rs) s t s' h e =
        let (s1, one, others) =
          >>=-eq-ok (apply_record trees format s r) (λ u. apply_all (apply trees format) u rs) e in
        let c = apply_record-IsChange s s1 r one in
        let near : Agrees s1 (changed trees t c.change) =
          rw c.done (changed-Agrees c.change s t h) in
        rw (c.always t) (apply_all-Agrees rs s1 (changed trees t c.change) s' near others)

    -- Commits that lead from one state to another lead from every state that shows the same to one
    -- that shows the same as the other.
    pub apply_groups-Agrees :
        (gs : List (List WalRecord)) (s t s' : DbState trees)
        → Agrees s t
        → apply_groups (apply trees format) s gs ≡ ok s'
        → Follows (apply_groups (apply trees format) t gs) s'
    apply_groups-Agrees [] s t s' h e = (t, refl, (let same : s ≡ s' = cc e in rw (← same) h))
    apply_groups-Agrees (g ∷ gs) s t s' h e =
        let (s1, one, others) =
          >>=-eq-ok (apply_all (apply trees format) s g)
            (λ u. apply_groups (apply trees format) u gs) e in
        let (t1, also, near) = apply_all-Agrees g s t s1 h one in
        rw also (apply_groups-Agrees gs s1 t1 s' near others)
