-- ===== src/Wal/Replay/Crash.antt =====
-- Replay of a log that a crash cut anywhere: all or nothing of each commit.
use native.Mathlib.Decide.{dec_le}
use btypedb.Prelude.{
  ℕ, zero, suc, ◌+◌, ◌-◌, ◌<◌, ◌≡◌, ap, ◌∙◌, Option, none, some, List, [], ◌∷◌, ◌++◌, leb, le→leb,
  lt→leb, if◌then◌else◌, length, take, All, Result, ok, ◌>>=◌, >>=-eq-ok, arith, length-append,
  take-append_le, take-append_ge, take-nil,
}
use btypedb.Bytes.{Bytes}
use btypedb.Wal.Record.{WalRecord}
use btypedb.Wal.Reader.{eof}
use btypedb.Wal.Reader.Framing.{over, read_record-end}
use btypedb.Wal.Replay.{Replayed, replay_loop, replay_log, on_record}
use btypedb.Wal.Replay.Rounds.{replay_loop-group, replay_loop-cut}
use btypedb.Wal.Replay.Groups.{
  group_bytes, group_size, torn_parsed, IsGroup, apply_all, group_size-pos, length-group_bytes,
}

-- The log that a sequence of commits leaves.
abbrev pub log_of : List (List WalRecord) → Bytes
log_of [] = []
log_of (g ∷ gs) = group_bytes g ++ log_of gs

-- The commits that lie whole in the first `n` bytes of the log.
abbrev pub survivors : ℕ → List (List WalRecord) → List (List WalRecord)
survivors n [] = []
survivors n (g ∷ gs) =
    let more = g ∷ survivors (n - group_size g) gs in if leb (group_size g) n then more else []

abbrev pub total_size : List (List WalRecord) → ℕ
total_size [] = 0
total_size (g ∷ gs) = group_size g + total_size gs

-- What was parsed of the first commit that did not survive.
abbrev pub parsed_past : ℕ → List (List WalRecord) → ℕ
parsed_past n [] = 0
parsed_past n (g ∷ gs) =
    let more = parsed_past (n - group_size g) gs in
    if leb (group_size g) n then more else torn_parsed n g

module _ {S : Type 0} (apply : S → WalRecord → Result S) where
  abbrev pub apply_groups : S → List (List WalRecord) → Result S
  apply_groups s [] = ok s
  apply_groups s (g ∷ gs) = apply_all apply s g >>= λ s'. apply_groups s' gs

  abbrev pub recovered : S → ℕ → ℕ → Option (Replayed S)
  recovered s valid parsed =
      some (record { state = s; valid_len = valid; parsed_len = parsed; error = none })

  recovered_cong : (s : S) {v v' p p' : ℕ} → v ≡ v' → p ≡ p' → recovered s v p ≡ recovered s v' p'
  recovered_cong s x y = cc

  replay_loop-end :
      (fuel : ℕ) (s : S) (off : ℕ)
      → replay_loop apply (suc fuel) s off (over eof []) ≡ recovered s off off
  unfolding replay_loop
  replay_loop-end fuel s off = ap (on_record apply (replay_loop apply fuel) s off) read_record-end

  pub replay_loop-log :
      (gs : List (List WalRecord)) (n fuel : ℕ) (s s' : S) (off : ℕ)
      → All IsGroup gs
      → length (take n (log_of gs)) < fuel
      → apply_groups s (survivors n gs) ≡ ok s'
      → replay_loop apply fuel s off (over eof (take n (log_of gs)))
        ≡ recovered s'
            (off + total_size (survivors n gs))
            (off + total_size (survivors n gs) + parsed_past n gs)
  replay_loop-log gs n zero s s' off h lt a = absurd (omega arith)
  replay_loop-log [] n (suc fuel) s s' off h lt a =
      let same : s ≡ s' = ground arith in
      rw (take-nil {A = ℕ} n, same)
        (replay_loop-end fuel s' off ∙ recovered_cong s' (omega arith) (omega arith))
  replay_loop-log (g ∷ gs) n (suc fuel) s s' off h lt a = elim (dec_le (group_size g) n) [
    | yes fits ↦
        let m = n - group_size g in
        let e : take n (log_of (g ∷ gs)) ≡ group_bytes g ++ take m (log_of gs) =
          rw (← length-group_bytes g)
            (take-append_ge n (group_bytes g) (log_of gs) (omega (arith, length-group_bytes g))) in
        let keep = le→leb (group_size g) n fits in
        let (s1, one, others) =
          >>=-eq-ok (apply_all apply s g) (λ t. apply_groups t (survivors m gs)) (rw keep at a) in
        let shorter : length (take m (log_of gs)) < fuel = omega (
          arith,
          ap length e,
          length-append (group_bytes g) (take m (log_of gs)),
          length-group_bytes g,
          group_size-pos g h.0,
        ) in
        rw (e, keep)
          (replay_loop-group apply eof g fuel s s1 off (take m (log_of gs)) h.0 one
            ∙ replay_loop-log gs m fuel s1 s' (off + group_size g) h.1 shorter others
            ∙ recovered_cong s' (omega arith) (omega arith))
    | no cut ↦
        let e : take n (log_of (g ∷ gs)) ≡ take n (group_bytes g) =
          take-append_le n (group_bytes g) (log_of gs) (omega (arith, length-group_bytes g)) in
        let drop_it = lt→leb n (group_size g) (omega arith) in
        let same : s ≡ s' = ground (arith, rw drop_it at a) in
        rw (e, drop_it, same)
          (replay_loop-cut apply n g fuel s' off h.0 (omega arith)
            ∙ recovered_cong s' (omega arith) (omega arith))
  ]

  -- Whatever byte `n` a crash cuts the log at, replay ends without an error, in the state after
  -- exactly the commits that lie whole before the cut; `valid_len` is the end of the last of these,
  -- and `parsed_len` lies behind it by the whole records of the commit that was cut.
  pub replay_log-cut :
      (gs : List (List WalRecord)) (n : ℕ) (s s' : S)
      → All IsGroup gs
      → apply_groups s (survivors n gs) ≡ ok s'
      → replay_log apply s (over eof (take n (log_of gs)))
        ≡ recovered s'
            (total_size (survivors n gs))
            (total_size (survivors n gs) + parsed_past n gs)
  unfolding replay_log
  replay_log-cut gs n s s' h a =
      replay_loop-log gs n (suc (length (take n (log_of gs)))) s s' 0 h (omega arith) a
      ∙ recovered_cong s' (omega arith) (omega arith)
