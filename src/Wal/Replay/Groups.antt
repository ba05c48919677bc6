-- ===== src/Wal/Replay/Groups.antt =====
-- The groups of records that a commit writes, and their replay from a whole log.
use native.Mathlib.Decide.{dec_le}
use btypedb.Prelude.{
  ℕ, suc, ◌+◌, ◌-◌, ◌^◌, ◌<◌, ◌≡◌, refl, ap, ◌∙◌, sym, false, List, [], ◌∷◌, ◌++◌, ◌==◌, leb,
  le→leb, lt→leb, take-append_le, take-append_ge, if◌then◌else◌, length, take, All, Result, ok,
  ◌>>=◌, arith, append_assoc, append-nil, length-append,
}
use btypedb.Bytes.{Bytes, put_le, length-put_le}
use btypedb.Wal.Record.{WalRecord, op_batch, Fits, frame_of, frame_size, length-frame_of}
use btypedb.Wal.Reader.{Ending, eof, Reader, read_record}
use btypedb.Wal.Reader.Framing.{over, read_record-frame, read_record-torn}
use btypedb.Wal.Replay.{whole, torn, on_member, collect}

abbrev pub frames : List WalRecord → Bytes
frames [] = []
frames (r ∷ rs) = frame_of r ++ frames rs

abbrev pub frames_size : List WalRecord → ℕ
frames_size [] = 0
frames_size (r ∷ rs) = frame_size r + frames_size rs

-- The header that `Commit` puts before several records.
abbrev pub batch_header : ℕ → WalRecord
batch_header n = record { op = op_batch; key = []; val = put_le 8 n }

-- What one commit appends: its record, or its records behind a batch header.
unfoldable pub group_bytes : List WalRecord → Bytes
group_bytes [] = []
group_bytes (r ∷ []) = frame_of r
group_bytes rs = frame_of (batch_header (length rs)) ++ frames rs

unfoldable pub group_size : List WalRecord → ℕ
group_size [] = 0
group_size (r ∷ []) = frame_size r
group_size rs = 21 + frames_size rs

-- A record of an operation: not a batch header.
pub record IsMember (r : WalRecord) : Type 0 where
  pub fits : Fits r
  pub not_batch : (r.op == op_batch) ≡ false

pub record IsGroup (rs : List WalRecord) : Type 0 where
  pub some_record : 0 < length rs
  pub countable : length rs < 2 ^ 64
  pub members : All IsMember rs

pub batch_header-Fits : (n : ℕ) → Fits (batch_header n)
batch_header-Fits n = record {
  op_lo = omega arith;
  op_hi = omega arith;
  key_fits = omega arith;
  val_fits = omega (arith, length-put_le 8 n);
}

pub length-frames : (rs : List WalRecord) → length (frames rs) ≡ frames_size rs
length-frames [] = refl
length-frames (r ∷ rs) =
    omega (arith, length-append (frame_of r) (frames rs), length-frame_of r, length-frames rs)

pub length-group_bytes : (rs : List WalRecord) → length (group_bytes rs) ≡ group_size rs
unfolding group_bytes group_size
length-group_bytes [] = refl
length-group_bytes (r ∷ []) = length-frame_of r
length-group_bytes (r ∷ s ∷ rs) = omega (
  arith,
  length-append (frame_of (batch_header (length (r ∷ s ∷ rs)))) (frames (r ∷ s ∷ rs)),
  length-frame_of (batch_header (length (r ∷ s ∷ rs))),
  length-put_le 8 (length (r ∷ s ∷ rs)),
  length-frames (r ∷ s ∷ rs),
)

pub length-header_frame : (n : ℕ) → length (frame_of (batch_header n)) ≡ 21
length-header_frame n = omega (arith, length-frame_of (batch_header n), length-put_le 8 n)

whole_cong :
    {b b' : List WalRecord} {t t' p p' : ℕ} (r : Reader)
    → b ≡ b'
    → t ≡ t'
    → p ≡ p'
    → whole b t p r ≡ whole b' t' p' r
whole_cong r x y z = cc

collect-cons :
    (e : Ending) (n : ℕ) (r : WalRecord) (batch : List WalRecord) (total parsed : ℕ) (rest : Bytes)
    → IsMember r
    → collect (suc n) batch total parsed (over e (frame_of r ++ rest))
      ≡ collect n (batch ++ (r ∷ [])) (total + frame_size r) (parsed + frame_size r) (over e rest)
unfolding collect
collect-cons e n r batch total parsed rest m =
    ap (on_member (collect n) batch total parsed) (read_record-frame e r rest m.fits)
    ∙ rw m.not_batch

pub group_size-pos : (g : List WalRecord) → IsGroup g → 0 < group_size g
unfolding group_size
group_size-pos [] g = absurd (omega (arith, g.some_record))
group_size-pos (r ∷ []) g = omega arith
group_size-pos (r ∷ q ∷ rs) g = omega arith

-- All members of an intact batch are collected.
pub collect-frames :
    (e : Ending) (rs batch : List WalRecord) (total parsed : ℕ) (rest : Bytes)
    → All IsMember rs
    → collect (length rs) batch total parsed (over e (frames rs ++ rest))
      ≡ whole (batch ++ rs) (total + frames_size rs) (parsed + frames_size rs) (over e rest)
collect-frames e [] batch total parsed rest h =
    unfold collect in whole_cong (over e rest) (sym (append-nil batch)) (omega arith) (omega arith)
collect-frames e (r ∷ rs) batch total parsed rest h =
    rw (append_assoc (frame_of r) (frames rs) rest) (
      collect-cons e (length rs) r batch total parsed (frames rs ++ rest) h.0
      ∙ collect-frames e rs (batch ++ (r ∷ [])) (total + frame_size r) (parsed + frame_size r) rest
          h.1
      ∙ whole_cong (over e rest) (append_assoc batch (r ∷ []) rs) (omega arith) (omega arith))

-- The records that lie whole in the first `n` bytes.
unfoldable pub intact_size : ℕ → List WalRecord → ℕ
intact_size n [] = 0
intact_size n (r ∷ rs) =
    let more = frame_size r + intact_size (n - frame_size r) rs in
    if leb (frame_size r) n then more else 0

-- A cut inside the members ends the batch, behind the last whole member.
pub collect-cut :
    (n : ℕ) (rs batch : List WalRecord) (total parsed : ℕ)
    → All IsMember rs
    → n < frames_size rs
    → collect (length rs) batch total parsed (over eof (take n (frames rs)))
      ≡ torn (parsed + intact_size n rs)
collect-cut n [] batch total parsed h lt = absurd (omega arith)
collect-cut n (r ∷ rs) batch total parsed h lt = elim (dec_le (frame_size r) n) [
  | yes fits ↦
      let e : take n (frames (r ∷ rs)) ≡ frame_of r ++ take (n - frame_size r) (frames rs) =
        rw (← length-frame_of r)
          (take-append_ge n (frame_of r) (frames rs) (omega (arith, length-frame_of r))) in
      let i : intact_size n (r ∷ rs) ≡ frame_size r + intact_size (n - frame_size r) rs =
        unfold intact_size in rw (le→leb (frame_size r) n fits) in
      rw (e, i)
        (collect-cons eof (length rs) r batch total parsed (take (n - frame_size r) (frames rs)) h.0
          ∙ collect-cut (n - frame_size r) rs (batch ++ (r ∷ [])) (total + frame_size r)
              (parsed + frame_size r) h.1 (omega arith)
          ∙ ap torn (omega arith))
  | no cut ↦
      let e : take n (frames (r ∷ rs)) ≡ take n (frame_of r) =
        take-append_le n (frame_of r) (frames rs) (omega (arith, length-frame_of r)) in
      let i : intact_size n (r ∷ rs) ≡ 0 =
        unfold intact_size in rw (lt→leb n (frame_size r) (omega arith)) in
      rw (e, i)
        (let step : collect (suc (length rs)) batch total parsed (over eof (take n (frame_of r)))
              ≡ on_member (collect (length rs)) batch total parsed
                  (read_record (over eof (take n (frame_of r)))) =
            unfold collect in refl in
          step
          ∙ ap (on_member (collect (length rs)) batch total parsed)
              (read_record-torn n r h.0.fits (omega arith))
          ∙ ap torn (omega arith))
]

-- The bytes of a cut group that framed correctly.
unfoldable pub torn_parsed : ℕ → List WalRecord → ℕ
torn_parsed n [] = 0
torn_parsed n (r ∷ []) = 0
torn_parsed n rs = if leb 21 n then 21 + intact_size (n - 21) rs else 0

module _ {S : Type 0} (apply : S → WalRecord → Result S) where
  -- The state after records that all apply.
  unfoldable pub apply_all : S → List WalRecord → Result S
  apply_all s [] = ok s
  apply_all s (r ∷ rs) = apply s r >>= λ s'. apply_all s' rs
