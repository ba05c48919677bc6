-- ===== src/Wal/Reader/Framing.antt =====
-- `readRecord` on whole and on torn records.
use native.Mathlib.Decide.{dec_lt}
use btypedb.Prelude.{
  ℕ, ◌+◌, ◌-◌, ◌%◌, ◌^◌, ◌≤◌, ◌<◌, ◌≡◌, refl, ap, ◌∙◌, false, [], ◌∷◌, ◌++◌, arith, le→leb, lt→leb,
  length, take, drop, length-append, take-length_append, drop-length_append, take-append_ge,
  length-take, append_assoc, take_all, ==_refl,
}
use btypedb.Bytes.{Bytes, put_le, get_le, length-put_le, get_le-put_le, checksum, checksum-lt}
use btypedb.Wal.Record.{WalRecord, Fits, record_body, frame, frame_of, frame_size, max_part_len}
use btypedb.Wal.Reader.{
  Ending, eof, Reader, full, got, none_left, read_full, bad_header, check_body, read_record,
  on_header, on_body, short_read, uint32_at,
}

module _ (e : Ending) where
  abbrev pub over : Bytes → Reader
  over bs = record { bytes = bs; ending = e }

  pub read_full-append :
      (n : ℕ) (xs ys : Bytes) → length xs ≡ n → read_full n (over (xs ++ ys)) ≡ full xs (over ys)
  unfolding read_full
  read_full-append n xs ys h = rw (
    ← h,
    le→leb (length xs) (length (xs ++ ys)) (omega (arith, length-append xs ys)),
    take-length_append xs ys,
    drop-length_append xs ys,
  )

  read_full_short : (n : ℕ) (xs : Bytes) → length xs < n → read_full n (over xs) ≡ short_read e
  unfolding read_full
  read_full_short n xs h = rw (lt→leb (length xs) n h)

abbrev pub header : ℕ → Bytes → Bytes → Bytes
header op key val = op ∷ (put_le 4 (length key % 2 ^ 32) ++ put_le 4 (length val % 2 ^ 32))

pub length-header : (op : ℕ) (key val : Bytes) → length (header op key val) ≡ 9
length-header op key val = omega (
  arith,
  length-append (put_le 4 (length key % 2 ^ 32)) (put_le 4 (length val % 2 ^ 32)),
  length-put_le 4 (length key % 2 ^ 32),
  length-put_le 4 (length val % 2 ^ 32),
)

header_klen :
    (op : ℕ) (key val : Bytes)
    → length key ≤ max_part_len
    → uint32_at 1 (header op key val) ≡ length key
unfolding put_le
header_klen op key val h =
    let e : length key % 2 ^ 32 ≡ length key = omega arith in
    get_le-put_le 4 (length key % 2 ^ 32) (omega arith) ∙ e

header_vlen :
    (op : ℕ) (key val : Bytes)
    → length val ≤ max_part_len
    → uint32_at 5 (header op key val) ≡ length val
unfolding put_le
header_vlen op key val h =
    let e : length val % 2 ^ 32 ≡ length val = omega arith in
    get_le-put_le 4 (length val % 2 ^ 32) (omega arith) ∙ e

abbrev pub payload : WalRecord → Bytes
payload r = (r.key ++ r.val) ++ put_le 4 (checksum (record_body r.op r.key r.val))

length-payload : (r : WalRecord) → length (payload r) ≡ length r.key + length r.val + 4
length-payload r = omega (
  arith,
  length-append (r.key ++ r.val) (put_le 4 (checksum (record_body r.op r.key r.val))),
  length-append r.key r.val,
  length-put_le 4 (checksum (record_body r.op r.key r.val)),
)

record_body-split :
    (op : ℕ) (key val : Bytes) → record_body op key val ≡ header op key val ++ (key ++ val)
unfolding record_body
record_body-split op key val = simp append_assoc

pub frame-split : (r : WalRecord) → frame_of r ≡ header r.op r.key r.val ++ payload r
unfolding frame
frame-split r = rw (
  record_body-split r.op r.key r.val,
  append_assoc (header r.op r.key r.val) (r.key ++ r.val)
      (put_le 4 (checksum (header r.op r.key r.val ++ (r.key ++ r.val)))),
)

module _ (key val sum : Bytes) where
  take-both : take (length key + length val) ((key ++ val) ++ sum) ≡ key ++ val
  take-both = rw (← length-append key val) (take-length_append (key ++ val) sum)

  drop-both : drop (length key + length val) ((key ++ val) ++ sum) ≡ sum
  drop-both = rw (← length-append key val) (drop-length_append (key ++ val) sum)

  take-key : take (length key) ((key ++ val) ++ sum) ≡ key
  take-key = rw append_assoc (take-length_append key (val ++ sum))

  take-val : take (length val) (drop (length key) ((key ++ val) ++ sum)) ≡ val
  take-val = rw (append_assoc, drop-length_append key (val ++ sum)) (take-length_append val sum)

checksum-stored : (bs : Bytes) → get_le (take 4 (put_le 4 (checksum bs))) ≡ checksum bs
checksum-stored bs =
    rw (take_all 4 (put_le 4 (checksum bs)) (omega (arith, length-put_le 4 (checksum bs))))
      (get_le-put_le 4 (checksum bs) (omega (arith, checksum-lt bs)))

check_body-payload :
    (r : WalRecord) (rest : Reader)
    → check_body (header r.op r.key r.val) (length r.key) (length r.val) (payload r) rest
      ≡ got r (frame_size r) rest
unfolding check_body
check_body-payload r rest =
    let sum = put_le 4 (checksum (record_body r.op r.key r.val)) in
    rw (
      take-both r.key r.val sum,
      drop-both r.key r.val sum,
      take-key r.key r.val sum,
      take-val r.key r.val sum,
      ← record_body-split r.op r.key r.val,
      checksum-stored (record_body r.op r.key r.val),
      ==_refl (checksum (record_body r.op r.key r.val)),
    )

good_header : (r : WalRecord) → Fits r → bad_header r.op (length r.key) (length r.val) ≡ false
unfolding bad_header
good_header r f = ground arith

read_record-append :
    (e : Ending) (hdr rest : Bytes)
    → length hdr ≡ 9
    → read_record (over e (hdr ++ rest)) ≡ on_header (full hdr (over e rest))
read_record-append e hdr rest h =
    let step : read_record (over e (hdr ++ rest)) ≡ on_header (read_full 9 (over e (hdr ++ rest))) =
      unfold read_record in refl in
    step ∙ ap on_header (read_full-append e 9 hdr rest h)

-- After a good header the verdict rests on the body.
read_record-header :
    (e : Ending) (r : WalRecord) (rest : Bytes)
    → Fits r
    → read_record (over e (header r.op r.key r.val ++ rest))
      ≡ on_body
          (header r.op r.key r.val)
          (length r.key)
          (length r.val)
          (read_full (length r.key + length r.val + 4) (over e rest))
read_record-header e r rest f =
    read_record-append e (header r.op r.key r.val) rest (length-header r.op r.key r.val)
    ∙ rw (
      header_klen r.op r.key r.val f.key_fits,
      header_vlen r.op r.key r.val f.val_fits,
      good_header r f,
    )

-- A whole record is read back, and what follows it stays.
pub read_record-frame :
    (e : Ending) (r : WalRecord) (rest : Bytes)
    → Fits r
    → read_record (over e (frame_of r ++ rest)) ≡ got r (frame_size r) (over e rest)
read_record-frame e r rest f =
    rw
      (
        frame-split r,
        append_assoc (header r.op r.key r.val) (payload r) rest,
        read_record-header e r (payload r ++ rest) f,
        read_full-append e (length r.key + length r.val + 4) (payload r) rest (length-payload r),
      )
      (check_body-payload r (over e rest))

-- A record that is cut short is no record.
pub read_record-torn :
    (n : ℕ) (r : WalRecord)
    → Fits r
    → n < frame_size r
    → read_record (over eof (take n (frame_of r))) ≡ none_left
read_record-torn n r f h = elim (dec_lt n 9) [
  | yes below ↦
      let short_header : length (take n (frame_of r)) < 9 =
        omega (arith, length-take n (frame_of r)) in
      let step : read_record (over eof (take n (frame_of r)))
          ≡ on_header (read_full 9 (over eof (take n (frame_of r)))) =
        unfold read_record in refl in
      step ∙ ap on_header (read_full_short eof 9 (take n (frame_of r)) short_header)
  | no above ↦
      let cut = take (n - length (header r.op r.key r.val)) (payload r) in
      let e : take n (header r.op r.key r.val ++ payload r) ≡ header r.op r.key r.val ++ cut =
        take-append_ge n (header r.op r.key r.val) (payload r)
          (omega (arith, length-header r.op r.key r.val)) in
      let short_body : length cut < length r.key + length r.val + 4 = omega (
        arith,
        length-take (n - length (header r.op r.key r.val)) (payload r),
        length-header r.op r.key r.val,
        length-payload r,
      ) in
      rw (frame-split r, e, read_record-header eof r cut f)
        (ap (on_body (header r.op r.key r.val) (length r.key) (length r.val))
          (read_full_short eof (length r.key + length r.val + 4) cut short_body))
]

-- The clean end of a log.
pub read_record-end : read_record (over eof []) ≡ none_left
unfolding read_record read_full
read_record-end = refl
