-- ===== src/Wal/Reader/Accept.antt =====
-- `readRecord` accepts framed records, and nothing else.
use mathlib.Core.Path.{ap₂}
use btypedb.Prelude.{
  ℕ, ◌+◌, ◌%◌, ◌^◌, ◌≤◌, ◌<◌, ◌≡◌, refl, ap, ◌∙◌, sym, false, [], ◌∷◌, ◌++◌, arith, length, take,
  drop, drop-drop, take_all, take-add, length-take, length-drop, take-append-drop, append_assoc,
  All, All-take, All-drop, All-append_left, All-append_right, ==_iff,
}
use btypedb.Bytes.{Bytes, IsByte, put_le, get_le, put_le-get_le, checksum}
use btypedb.Wal.Record.{
  WalRecord, Fits, record_body, frame, frame_of, frame_size, op_set, op_set_ttl, max_part_len,
}
use btypedb.Wal.Reader.{Reader, got, bad_header, read_record, uint32_at, op_at}
use btypedb.Wal.Reader.Sizes.{Accepted, read_record-got}

good_header-limits :
    (op klen vlen : ℕ)
    → bad_header op klen vlen ≡ false
    → (op_set ≤ op) × (op ≤ op_set_ttl) × (klen ≤ max_part_len) × (vlen ≤ max_part_len)
unfolding bad_header
good_header-limits op klen vlen h = ground arith

op_at-cons : (l : Bytes) → 0 < length l → l ≡ op_at l ∷ drop 1 l
op_at-cons [] h = absurd (omega arith)
op_at-cons (x ∷ l) h = refl

-- A word that was read is what would be written.
reread : (w : Bytes) → All IsByte w → length w ≡ 4 → put_le 4 (get_le w) ≡ w
reread w h e = rw e at (put_le-get_le w h)

header_parts :
    (hdr : Bytes)
    → All IsByte hdr
    → length hdr ≡ 9
    → hdr ≡ op_at hdr ∷ (put_le 4 (uint32_at 1 hdr) ++ put_le 4 (uint32_at 5 hdr))
header_parts hdr b e =
    let k : put_le 4 (uint32_at 1 hdr) ≡ take 4 (drop 1 hdr) =
      reread _ (All-take IsByte 4 (drop 1 hdr) (All-drop IsByte 1 hdr b))
        (omega (arith, length-take 4 (drop 1 hdr), length-drop 1 hdr)) in
    let v : put_le 4 (uint32_at 5 hdr) ≡ take 4 (drop 5 hdr) =
      reread _ (All-take IsByte 4 (drop 5 hdr) (All-drop IsByte 5 hdr b))
        (omega (arith, length-take 4 (drop 5 hdr), length-drop 5 hdr)) in
    let back : take 4 (drop 5 hdr) ≡ drop 4 (drop 1 hdr) =
      take_all 4 (drop 5 hdr) (omega (arith, length-drop 5 hdr)) ∙ sym (drop-drop 4 1 hdr) in
    op_at-cons hdr (omega arith)
    ∙ ap (λ l. op_at hdr ∷ l) (rw (k, v, back) (sym (take-append-drop 4 (drop 1 hdr))))

module _ {bytes : Bytes} {rec : WalRecord} {size : ℕ} {left : Bytes}
    (a : Accepted bytes rec size left) (b : All IsByte bytes) where
  open a use {
    hdr, body, klen, vlen, hdr_length, body_length, bytes_split, klen_eq, vlen_eq, good, sum,
    rec_eq, size_eq,
  }

  abbrev key : Bytes
  key = take klen body

  abbrev val : Bytes
  val = take vlen (drop klen body)

  limits :
      (op_set ≤ op_at hdr)
      × (op_at hdr ≤ op_set_ttl)
      × (klen ≤ max_part_len)
      × (vlen ≤ max_part_len)
  limits = good_header-limits (op_at hdr) klen vlen good

  hdr_bytes : All IsByte hdr
  hdr_bytes = All-append_left IsByte hdr (body ++ left) (rw bytes_split at b)

  body_bytes : All IsByte body
  body_bytes =
      All-append_left IsByte body left
        (All-append_right IsByte hdr (body ++ left) (rw bytes_split at b))

  key_length : length key ≡ klen
  key_length = omega (arith, length-take klen body)

  val_length : length val ≡ vlen
  val_length = omega (arith, length-take vlen (drop klen body), length-drop klen body)

  hdr_eq : hdr ≡ op_at hdr ∷ (put_le 4 (length key % 2 ^ 32) ++ put_le 4 (length val % 2 ^ 32))
  hdr_eq =
      let k : length key % 2 ^ 32 ≡ uint32_at 1 hdr = omega (arith, key_length, limits, klen_eq) in
      let v : length val % 2 ^ 32 ≡ uint32_at 5 hdr = omega (arith, val_length, limits, vlen_eq) in
      rw (k, v) (header_parts hdr hdr_bytes hdr_length)

  both : take (klen + vlen) body ≡ key ++ val
  both = take-add klen vlen body

  covered : hdr ++ take (klen + vlen) body ≡ record_body (op_at hdr) key val
  unfolding record_body
  covered =
      ap (λ (h : Bytes). h ++ take (klen + vlen) body) hdr_eq
      ∙ ap
          (λ (t : Bytes).
            (op_at hdr ∷ (put_le 4 (length key % 2 ^ 32) ++ put_le 4 (length val % 2 ^ 32))) ++ t)
          both
      ∙ simp append_assoc

  tail_length : length (drop (klen + vlen) body) ≡ 4
  tail_length = omega (arith, length-drop (klen + vlen) body)

  sum_eq : drop (klen + vlen) body ≡ put_le 4 (checksum (record_body (op_at hdr) key val))
  sum_eq =
      let tail : take 4 (drop (klen + vlen) body) ≡ drop (klen + vlen) body =
        take_all 4 (drop (klen + vlen) body) (omega (arith, tail_length)) in
      let same : checksum (hdr ++ take (klen + vlen) body)
          ≡ get_le (take 4 (drop (klen + vlen) body)) =
        (==_iff _ _).0 sum in
      rw (← covered, same, tail)
        (sym (reread _ (All-drop IsByte (klen + vlen) body body_bytes) tail_length))

  body_eq : body ≡ (key ++ val) ++ put_le 4 (checksum (record_body (op_at hdr) key val))
  body_eq = sym (take-append-drop (klen + vlen) body) ∙ rw (both, sum_eq)

  frame_eq : bytes ≡ frame (op_at hdr) key val ++ left
  unfolding frame
  frame_eq =
      let whole : hdr ++ body
          ≡ record_body (op_at hdr) key val
            ++ put_le 4 (checksum (record_body (op_at hdr) key val)) =
        ap (λ l. hdr ++ l) (sym (take-append-drop (klen + vlen) body))
        ∙ sym (append_assoc hdr (take (klen + vlen) body) (drop (klen + vlen) body))
        ∙ ap₂ (λ x y. x ++ y) covered sum_eq in
      bytes_split ∙ sym (append_assoc hdr body left) ∙ ap (λ l. l ++ left) whole

  pub Accepted-framed : Fits rec × (bytes ≡ frame_of rec ++ left) × (size ≡ frame_size rec)
  Accepted-framed = rw rec_eq (
    record {
      op_lo = limits.0;
      op_hi = limits.1;
      key_fits = omega (arith, key_length, limits);
      val_fits = omega (arith, val_length, limits);
    },
    frame_eq,
    omega (arith, size_eq, key_length, val_length),
  )

-- On bytes, whatever `readRecord` accepts is the frame of the record that it returns: the input
-- begins with that frame, the size is the frame's, the lengths and the op are in range, and the
-- rest of the input stays.
pub read_record-framed :
    (r : Reader) (rec : WalRecord) (size : ℕ) (r' : Reader)
    → All IsByte r.bytes
    → read_record r ≡ got rec size r'
    → Fits rec × (r.bytes ≡ frame_of rec ++ r'.bytes) × (size ≡ frame_size rec)
read_record-framed r rec size r' b h = Accepted-framed (read_record-got rec size r' r h) b
