-- ===== src/Wal/Reader/Oversized.antt =====
-- The limit of readRecord that appendRecord does not have.
use btypedb.Prelude.{ℕ, ◌%◌, ◌^◌, ◌<◌, ◌≡◌, ◌∙◌, true, ◌++◌, arith, length, append_assoc}
use btypedb.Bytes.{Bytes, put_le, get_le-put_le}
use btypedb.Wal.Record.{WalRecord, frame_of, max_part_len}
use btypedb.Wal.Reader.{Ending, none_left, bad_header, read_record, uint32_at}
use btypedb.Wal.Reader.Framing.{over, header, payload, length-header, frame-split, read_full-append}

oversized_header : (op k v : ℕ) → max_part_len < v → bad_header op k v ≡ true
unfolding bad_header
oversized_header op k v h = ground arith

oversized_vlen :
    (op : ℕ) (key val : Bytes) → length val < 2 ^ 32 → uint32_at 5 (header op key val) ≡ length val
unfolding put_le
oversized_vlen op key val h =
    let e : length val % 2 ^ 32 ≡ length val = omega arith in
    get_le-put_le 4 (length val % 2 ^ 32) (omega arith) ∙ e

-- A record whose value is longer than `maxPartLen`, and below 2 ^ 32, is framed like any other, but
-- it is read as no record.
pub read_record-oversized :
    (e : Ending) (r : WalRecord) (rest : Bytes)
    → max_part_len < length r.val
    → length r.val < 2 ^ 32
    → read_record (over e (frame_of r ++ rest)) ≡ none_left
unfolding read_record put_le
read_record-oversized e r rest large word = rw (
  frame-split r,
  append_assoc (header r.op r.key r.val) (payload r) rest,
  read_full-append e 9 (header r.op r.key r.val) (payload r ++ rest)
      (length-header r.op r.key r.val),
  oversized_vlen r.op r.key r.val word,
  oversized_header r.op (uint32_at 1 (header r.op r.key r.val)) (length r.val) large,
)
