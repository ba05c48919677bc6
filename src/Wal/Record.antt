-- ===== src/Wal/Record.antt =====
-- The record framing of wal.go: `appendRecord`, `walRecord` and the constants.
use btypedb.Prelude.{ℕ, ◌+◌, ◌%◌, ◌^◌, ◌≤◌, ◌≡◌, ◌∷◌, ◌++◌, arith, length, length-append}
use btypedb.Bytes.{Bytes, put_le, length-put_le, checksum}

abbrev pub op_set : ℕ
op_set = 1

abbrev pub op_delete : ℕ
op_delete = 2

abbrev pub op_batch : ℕ
op_batch = 3

abbrev pub op_set_ttl : ℕ
op_set_ttl = 4

abbrev pub rec_header_size : ℕ
rec_header_size = 9

abbrev pub rec_crc_size : ℕ
rec_crc_size = 4

abbrev pub ttl_prefix_size : ℕ
ttl_prefix_size = 8

abbrev pub max_part_len : ℕ
max_part_len = 2 ^ 30

pub record WalRecord : Type 0 where
  pub op : ℕ
  pub key : Bytes
  pub val : Bytes

-- The bytes that the checksum covers: header, key and value.
unfoldable pub record_body : ℕ → Bytes → Bytes → Bytes
record_body op key val =
    op ∷ (put_le 4 (length key % 2 ^ 32) ++ (put_le 4 (length val % 2 ^ 32) ++ (key ++ val)))

-- One framed record.
unfoldable pub frame : ℕ → Bytes → Bytes → Bytes
frame op key val = record_body op key val ++ put_le 4 (checksum (record_body op key val))

unfoldable pub append_record : Bytes → ℕ → Bytes → Bytes → Bytes
unfolding frame
append_record dst op key val = dst ++ frame op key val

-- `prependDeadline` on the bits of the deadline.
unfoldable pub prepend_deadline : ℕ → Bytes → Bytes
prepend_deadline deadline val = put_le 8 deadline ++ val

-- What `readRecord` accepts, and what the database writes.
pub record Fits (r : WalRecord) : Type 0 where
  pub op_lo : op_set ≤ r.op
  pub op_hi : r.op ≤ op_set_ttl
  pub key_fits : length r.key ≤ max_part_len
  pub val_fits : length r.val ≤ max_part_len

abbrev pub frame_of : WalRecord → Bytes
frame_of r = frame r.op r.key r.val

abbrev pub frame_size : WalRecord → ℕ
frame_size r = rec_header_size + length r.key + length r.val + rec_crc_size

pub length-record_body :
    (op : ℕ) (key val : Bytes) → length (record_body op key val) ≡ 9 + length key + length val
unfolding record_body
length-record_body op key val = omega (
  arith,
  length-append (put_le 4 (length key % 2 ^ 32)) (put_le 4 (length val % 2 ^ 32) ++ (key ++ val)),
  length-append (put_le 4 (length val % 2 ^ 32)) (key ++ val),
  length-append key val,
  length-put_le 4 (length key % 2 ^ 32),
  length-put_le 4 (length val % 2 ^ 32),
)

pub length-frame_of : (r : WalRecord) → length (frame_of r) ≡ frame_size r
unfolding frame
length-frame_of r = omega (
  arith,
  length-append (record_body r.op r.key r.val) (put_le 4 (checksum (record_body r.op r.key r.val))),
  length-put_le 4 (checksum (record_body r.op r.key r.val)),
  length-record_body r.op r.key r.val,
)
