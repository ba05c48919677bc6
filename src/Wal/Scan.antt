-- ===== src/Wal/Scan.antt =====
-- `scanForRecord` of wal.go: tells a torn tail from damage in the middle of the file.
pub mod Laws
use btypedb.Prelude.{
  ℕ, ◌+◌, Bool, false, ◌||◌, Option, none, some, [], ◌∷◌, ltb, ◌==◌, if◌then◌else◌, length, take,
  drop,
}
use btypedb.Bytes.{Bytes, checksum}
use btypedb.Wal.Record.{op_set, op_set_ttl, rec_header_size, rec_crc_size, max_part_len}
use btypedb.Wal.Reader.{uint32_at, op_at}

-- The tests of one round, on the bytes from offset `i` on.
unfoldable pub intact_at : Bytes → Bool
intact_at bs =
    let op = op_at bs in
    let klen = uint32_at 1 bs in
    let vlen = uint32_at 5 bs in
    let end = rec_header_size + klen + vlen in
    if ltb op op_set || ltb op_set_ttl op
    then false
    else if ltb max_part_len klen || ltb max_part_len vlen
    then false
    else if ltb (length bs) (end + rec_crc_size)
    then false
    else checksum (take end bs) == uint32_at end bs

-- The list is what lies behind offset `i`; the loop ends where less than a record is left.
unfoldable pub scan_from : ℕ → Bytes → Option ℕ
scan_from i [] = none
scan_from i (b ∷ bs) =
    let next = scan_from (i + 1) bs in
    if ltb (length (b ∷ bs)) (rec_header_size + rec_crc_size)
    then none
    else if intact_at (b ∷ bs)
    then some i
    else next

unfoldable pub scan_for_record : Bytes → Option ℕ
scan_for_record bs = scan_from 0 bs
