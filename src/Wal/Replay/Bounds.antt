-- ===== src/Wal/Replay/Bounds.antt =====
-- Replay ends on every input, and its two lengths lie within the input.
use btypedb.Prelude.{
  ℕ, zero, suc, ◌+◌, ◌≤◌, ◌<◌, ◌≡◌, refl, Bool-cases, inl, inr, Option, none, some, List, ◌∷◌, [],
  ◌++◌, arith, ◌==◌, length, Result, ok, err, Error,
}
use btypedb.Bytes.{get_le}
use btypedb.Wal.Record.{WalRecord, op_batch}
use btypedb.Wal.Reader.{Reader, Read, got, none_left, read_error, read_record}
use btypedb.Wal.Reader.Sizes.{read_record-size}
use btypedb.Wal.Replay.{
  Collected, whole, torn, unreadable, on_member, collect, Replayed, stop, apply_batch, finish_batch,
  on_batch, on_single, on_record, replay_loop, replay_log,
}

-- What a read takes off an input of `len` bytes.
abbrev Takes : ℕ → Read → Type 0
Takes len (got rec size r') = (length r'.bytes + size ≡ len) × (13 ≤ size)
Takes len _ = Unit

read_record-Takes : (r : Reader) → Takes (length r.bytes) (read_record r)
read_record-Takes r = go (read_record r) refl
  where
    go : (x : Read) → read_record r ≡ x → Takes (length r.bytes) x
    go (got rec size r') e = read_record-size rec size r' r e
    go none_left e = tt
    go read_error e = tt

-- The members that were read lie within the `len` bytes behind `parsed`.
abbrev Within : ℕ → ℕ → ℕ → Collected → Type 0
Within total parsed len (whole b t p r) =
    (p + length r.bytes ≡ parsed + len) × (t + parsed ≡ total + p) × (parsed ≤ p)
Within total parsed len (torn p) = (parsed ≤ p) × (p ≤ parsed + len)
Within total parsed len (unreadable p) = (parsed ≤ p) × (p ≤ parsed + len)

Within-after :
    (total parsed size left len : ℕ) (c : Collected)
    → left + size ≡ len
    → Within (total + size) (parsed + size) left c
    → Within total parsed len c
Within-after total parsed size left len (whole b t p r) e w = omega arith
Within-after total parsed size left len (torn p) e w = omega arith
Within-after total parsed size left len (unreadable p) e w = omega arith

on_member-Within :
    (next : List WalRecord → ℕ → ℕ → Reader → Collected) (batch : List WalRecord)
    (total parsed len : ℕ) (x : Read)
    → ((b : List WalRecord) (t p : ℕ) (r : Reader) → Within t p (length r.bytes) (next b t p r))
    → Takes len x
    → Within total parsed len (on_member next batch total parsed x)
on_member-Within next batch total parsed len (got rec size r') more (taken, _) =
    elim (Bool-cases (rec.op == op_batch)) [
      | inl batch_op ↦ rw batch_op (omega arith)
      | inr member ↦ rw member (
          Within-after total parsed size (length r'.bytes) len _ taken
            (more (batch ++ (rec ∷ [])) (total + size) (parsed + size) r'))
    ]
on_member-Within next batch total parsed len none_left more t = omega arith
on_member-Within next batch total parsed len read_error more t = omega arith

collect-Within :
    (n : ℕ) (batch : List WalRecord) (total parsed : ℕ) (r : Reader)
    → Within total parsed (length r.bytes) (collect n batch total parsed r)
unfolding collect
collect-Within zero batch total parsed r = omega arith
collect-Within (suc n) batch total parsed r =
    on_member-Within (collect n) batch total parsed (length r.bytes) (read_record r)
      (collect-Within n) (read_record-Takes r)

module _ {S : Type 0} (apply : S → WalRecord → Result S) where
  -- The replay ended, with lengths that lie within the input.
  pub record Ended (off len : ℕ) (o : Option (Replayed S)) : Type 0 where
    pub result : Replayed S
    pub ends : o ≡ some result
    pub from_off : off ≤ result.valid_len
    pub valid-le-parsed : result.valid_len ≤ result.parsed_len
    pub parsed-le : result.parsed_len ≤ off + len

  Ended-stop :
      (off len : ℕ) (s : S) (p : ℕ) (e : Option Error)
      → off ≤ p
      → p ≤ off + len
      → Ended off len (stop apply s off p e)
  Ended-stop off len s p e lo hi = record {
    result = record { state = s; valid_len = off; parsed_len = p; error = e };
    ends = refl;
    from_off = omega arith;
    valid-le-parsed = lo;
    parsed-le = hi;
  }

  Ended-later :
      (off len off' len' : ℕ) (o : Option (Replayed S))
      → off ≤ off'
      → off' + len' ≤ off + len
      → Ended off' len' o
      → Ended off len o
  Ended-later off len off' len' o lo hi e = record {
    result = e.result;
    ends = e.ends;
    from_off = omega arith;
    valid-le-parsed = e.valid-le-parsed;
    parsed-le = omega arith;
  }

  module _ (next : S → ℕ → Reader → Option (Replayed S)) (len : ℕ)
      (ends : (s : S) (off : ℕ) (r : Reader)
        → length r.bytes < len
        → Ended off (length r.bytes) (next s off r)) where
    finish_batch-Ended :
        (off parsed total : ℕ) (r : Reader) (q : S × Option Error)
        → parsed + length r.bytes ≡ off + len
        → off + total ≡ parsed
        → 13 ≤ total
        → Ended off len (finish_batch apply next off parsed total r q)
    finish_batch-Ended off parsed total r (s, none) e t lo =
        Ended-later off len (off + total) (length r.bytes) _ (omega arith) (omega arith)
          (ends s (off + total) r (omega arith))
    finish_batch-Ended off parsed total r (s, some x) e t lo =
        Ended-stop off len s parsed (some x) (omega arith) (omega arith)

    on_batch-Ended :
        (s : S) (off size left : ℕ) (c : Collected)
        → left + size ≡ len
        → 13 ≤ size
        → Within size (off + size) left c
        → Ended off len (on_batch apply next s off c)
    on_batch-Ended s off size left (whole b t p r) e lo w =
        finish_batch-Ended off p t r (apply_batch apply s b) (omega arith) (omega arith)
          (omega arith)
    on_batch-Ended s off size left (torn p) e lo w =
        Ended-stop off len s p none (omega arith) (omega arith)
    on_batch-Ended s off size left (unreadable p) e lo w =
        Ended-stop off len s p _ (omega arith) (omega arith)

    on_single-Ended :
        (s : S) (off size : ℕ) (r : Reader) (x : Result S)
        → length r.bytes + size ≡ len
        → 13 ≤ size
        → Ended off len (on_single apply next s off size r x)
    on_single-Ended s off size r (ok s') e lo =
        Ended-later off len (off + size) (length r.bytes) _ (omega arith) (omega arith)
          (ends s' (off + size) r (omega arith))
    on_single-Ended s off size r (err x) e lo =
        Ended-stop off len s off (some x) (omega arith) (omega arith)

    on_record-Ended :
        (s : S) (off : ℕ) (x : Read) → Takes len x → Ended off len (on_record apply next s off x)
    on_record-Ended s off (got rec size r) (e, lo) = elim (Bool-cases (rec.op == op_batch)) [
      | inl batch ↦ elim (Bool-cases (length rec.val == 8)) [
        | inl counted ↦
            rw (batch, counted)
              (on_batch-Ended s off size (length r.bytes) _ e lo
                (collect-Within (get_le rec.val) [] size (off + size) r))
        | inr malformed ↦
            rw (batch, malformed)
              (Ended-stop off len s (off + size) none (omega arith) (omega arith))
      ]
      | inr single ↦ rw single (on_single-Ended s off size r (apply s rec) e lo)
    ]
    on_record-Ended s off none_left t = Ended-stop off len s off none (omega arith) (omega arith)
    on_record-Ended s off read_error t = Ended-stop off len s off _ (omega arith) (omega arith)

  replay_loop-Ended :
      (fuel : ℕ) (s : S) (off : ℕ) (r : Reader)
      → length r.bytes < fuel
      → Ended off (length r.bytes) (replay_loop apply fuel s off r)
  unfolding replay_loop
  replay_loop-Ended zero s off r lt = absurd (omega arith)
  replay_loop-Ended (suc fuel) s off r lt =
      on_record-Ended (replay_loop apply fuel) (length r.bytes)
        (λ s' off' r' lt'. replay_loop-Ended fuel s' off' r' (omega arith)) s off (read_record r)
        (read_record-Takes r)

  -- `replayLog` ends on every input, whole or damaged, with 0 ≤ valid_len ≤ parsed_len ≤ the
  -- length of the input.
  pub replay_log-Ended :
      (s : S) (r : Reader)
      → (x : Replayed S) × (replay_log apply s r ≡ some x)
        × (x.valid_len ≤ x.parsed_len)
        × (x.parsed_len ≤ length r.bytes)
  unfolding replay_log
  replay_log-Ended s r =
      let e = replay_loop-Ended (suc (length r.bytes)) s 0 r (omega arith) in
      (e.result, e.ends, e.valid-le-parsed, omega (arith, e.parsed-le))
