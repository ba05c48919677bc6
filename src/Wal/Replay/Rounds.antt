-- ===== src/Wal/Replay/Rounds.antt =====
-- The rounds of `replayLog` on the group of a commit, whole or cut.
use native.Mathlib.Decide.{dec_le}
use btypedb.Prelude.{
  ℕ, suc, ◌+◌, ◌-◌, ◌^◌, ◌<◌, ◌≡◌, ap, ◌∙◌, Option, none, some, List, [], ◌∷◌, ◌++◌, le→leb, lt→leb,
  take-append_le, take-append_ge, length, take, Result, ok, >>=-eq-ok, arith, append_assoc,
}
use btypedb.Bytes.{Bytes, length-put_le, get_le-put_le}
use btypedb.Wal.Record.{WalRecord, frame_of, frame_size}
use btypedb.Wal.Reader.{Ending, eof, Reader, got}
use btypedb.Wal.Reader.Framing.{over, read_record-frame, read_record-torn}
use btypedb.Wal.Replay.{
  collect, Replayed, apply_batch, on_record, on_batch, finish_batch, stop, replay_loop,
}
use btypedb.Wal.Replay.Groups.{
  frames, frames_size, batch_header, group_bytes, group_size, IsGroup, batch_header-Fits,
  length-header_frame, collect-frames, collect-cut, torn_parsed, apply_all,
}

module _ {S : Type 0} (apply : S → WalRecord → Result S) where
  pub apply_batch-ok :
      (rs : List WalRecord) (s s' : S)
      → apply_all apply s rs ≡ ok s'
      → apply_batch apply s rs ≡ (s', none)
  unfolding apply_all apply_batch
  apply_batch-ok [] s s' h = ground arith
  apply_batch-ok (r ∷ rs) s s' h =
      let (s1, e, rest) = >>=-eq-ok (apply s r) (λ t. apply_all apply t rs) h in
      rw (e, apply_batch) (apply_batch-ok rs s1 s' rest)

  on_batch-header :
      (next : S → ℕ → Reader → Option (Replayed S)) (s : S) (off n : ℕ) (r : Reader)
      → n < 2 ^ 64
      → on_record apply next s off (got (batch_header n) 21 r)
        ≡ on_batch apply next s off (collect n [] 21 (off + 21) r)
  on_batch-header next s off n r h = rw (length-put_le 8 n, get_le-put_le 8 n h)

  -- A round that starts at a batch header goes on with the members.
  pub replay_loop-batch :
      (e : Ending) (n fuel : ℕ) (s : S) (off : ℕ) (rest : Bytes)
      → n < 2 ^ 64
      → replay_loop apply (suc fuel) s off (over e (frame_of (batch_header n) ++ rest))
        ≡ on_batch apply (replay_loop apply fuel) s off (collect n [] 21 (off + 21) (over e rest))
  unfolding replay_loop
  replay_loop-batch e n fuel s off rest h =
      let size : frame_size (batch_header n) ≡ 21 = omega (arith, length-put_le 8 n) in
      ap (on_record apply (replay_loop apply fuel) s off) (
        read_record-frame e (batch_header n) rest (batch_header-Fits n)
        ∙ ap (λ (k : ℕ). got (batch_header n) k (over e rest)) size)
      ∙ on_batch-header (replay_loop apply fuel) s off n (over e rest) h

  -- One round of the loop reads a whole group and applies it.
  pub replay_loop-group :
      (e : Ending) (g : List WalRecord) (fuel : ℕ) (s s' : S) (off : ℕ) (rest : Bytes)
      → IsGroup g
      → apply_all apply s g ≡ ok s'
      → replay_loop apply (suc fuel) s off (over e (group_bytes g ++ rest))
        ≡ replay_loop apply fuel s' (off + group_size g) (over e rest)
  unfolding replay_loop group_bytes group_size apply_all
  replay_loop-group e [] fuel s s' off rest g h = absurd (omega (arith, g.some_record))
  replay_loop-group e (r ∷ []) fuel s s' off rest g h =
      let (s1, a, done) = >>=-eq-ok (apply s r) (λ t. apply_all apply t []) h in
      let same : s1 ≡ s' = ground (arith, done) in
      ap (on_record apply (replay_loop apply fuel) s off)
        (read_record-frame e r rest g.members.0.fits)
      ∙ rw (g.members.0.not_batch, a, same)
  replay_loop-group e (r ∷ q ∷ rs) fuel s s' off rest g h =
      let all : List WalRecord = r ∷ q ∷ rs in
      let next = replay_loop apply fuel in
      rw (append_assoc (frame_of (batch_header (length all))) (frames all) rest) (
        replay_loop-batch e (length all) fuel s off (frames all ++ rest) g.countable
        ∙ ap (on_batch apply next s off) (collect-frames e all [] 21 (off + 21) rest g.members)
        ∙ ap
            (finish_batch apply next off (off + 21 + frames_size all) (21 + frames_size all)
              (over e rest))
            (apply_batch-ok all s s' h))

  -- A group that is cut ends the replay before the group; `torn_parsed` is what was parsed of it.
  pub replay_loop-cut :
      (n : ℕ) (g : List WalRecord) (fuel : ℕ) (s : S) (off : ℕ)
      → IsGroup g
      → n < group_size g
      → replay_loop apply (suc fuel) s off (over eof (take n (group_bytes g)))
        ≡ some (record {
          state = s;
          valid_len = off;
          parsed_len = off + torn_parsed n g;
          error = none;
        })
  unfolding replay_loop group_bytes group_size torn_parsed
  replay_loop-cut n [] fuel s off g lt = absurd (omega (arith, g.some_record))
  replay_loop-cut n (r ∷ []) fuel s off g lt =
      ap (on_record apply (replay_loop apply fuel) s off) (read_record-torn n r g.members.0.fits lt)
      ∙ ap (λ (k : ℕ). stop apply s off k none) (omega arith)
  replay_loop-cut n (r ∷ q ∷ rs) fuel s off g lt =
      let all : List WalRecord = r ∷ q ∷ rs in
      let hdr = frame_of (batch_header (length all)) in
      let next = replay_loop apply fuel in
      elim (dec_le 21 n) [
        | yes behind ↦
            let e : take n (hdr ++ frames all) ≡ hdr ++ take (n - 21) (frames all) =
              rw (← length-header_frame (length all)) (
                take-append_ge n hdr (frames all)
                  (omega (arith, length-header_frame (length all)))) in
            rw (e, le→leb 21 n behind)
              (replay_loop-batch eof (length all) fuel s off (take (n - 21) (frames all))
                  g.countable
                ∙ ap (on_batch apply next s off)
                    (collect-cut (n - 21) all [] 21 (off + 21) g.members (omega arith))
                ∙ ap (λ (k : ℕ). stop apply s off k none) (omega arith))
        | no before ↦
            let e : take n (hdr ++ frames all) ≡ take n hdr =
              take-append_le n hdr (frames all) (omega (arith, length-header_frame (length all))) in
            rw (e, lt→leb n 21 (omega arith))
              (ap (on_record apply next s off) (
                  read_record-torn n (batch_header (length all)) (batch_header-Fits (length all))
                    (omega (arith, length-put_le 8 (length all))))
                ∙ ap (λ (k : ℕ). stop apply s off k none) (omega arith))
      ]
