-- ===== src/Wal/Replay/Append.antt =====
-- Logs grow at the end.
use btypedb.Prelude.{
  ◌≡◌, refl, ap, ◌∙◌, sym, List, [], ◌∷◌, ◌++◌, Result, ok, append_assoc, Result-cases, inl, inr,
  arith,
}
use btypedb.Wal.Record.{WalRecord, frame_of}
use btypedb.Wal.Replay.Groups.{frames, group_bytes, apply_all}
use btypedb.Wal.Replay.Crash.{log_of, apply_groups}

pub frames-append : (xs ys : List WalRecord) → frames (xs ++ ys) ≡ frames xs ++ frames ys
frames-append [] ys = refl
frames-append (x ∷ xs) ys =
    ap (λ l. frame_of x ++ l) (frames-append xs ys)
    ∙ sym (append_assoc (frame_of x) (frames xs) (frames ys))

pub log_of-append : (xs ys : List (List WalRecord)) → log_of (xs ++ ys) ≡ log_of xs ++ log_of ys
log_of-append [] ys = refl
log_of-append (x ∷ xs) ys =
    ap (λ l. group_bytes x ++ l) (log_of-append xs ys)
    ∙ sym (append_assoc (group_bytes x) (log_of xs) (log_of ys))

module _ {S : Type 0} (apply : S → WalRecord → Result S) where
  pub apply_all-append :
      (xs ys : List WalRecord) (s t : S)
      → apply_all apply s xs ≡ ok t
      → apply_all apply s (xs ++ ys) ≡ apply_all apply t ys
  unfolding apply_all
  apply_all-append [] ys s t h = ap (λ u. apply_all apply u ys) (ground arith)
  apply_all-append (x ∷ xs) ys s t h = elim (Result-cases (apply s x)) [
    | inl (u, e) ↦ rw (e, apply_all) (apply_all-append xs ys u t (rw (e, apply_all) at h))
    | inr (x, e) ↦ cc (rw (e, apply_all) at h)
  ]

  pub apply_groups-append :
      (xs ys : List (List WalRecord)) (s t : S)
      → apply_groups apply s xs ≡ ok t
      → apply_groups apply s (xs ++ ys) ≡ apply_groups apply t ys
  apply_groups-append [] ys s t h = ap (λ u. apply_groups apply u ys) (ground arith)
  apply_groups-append (x ∷ xs) ys s t h = elim (Result-cases (apply_all apply s x)) [
    | inl (u, e) ↦ rw e (apply_groups-append xs ys u t (rw e at h))
    | inr (x, e) ↦ cc (rw e at h)
  ]
