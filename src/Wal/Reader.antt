-- ===== src/Wal/Reader.antt =====
-- `readRecord` of wal.go, over a `bufio.Reader`.
pub mod Framing
pub mod Sizes
pub mod Accept
pub mod Oversized
use btypedb.Prelude.{
  ℕ, ◌+◌, ◌≤◌, ◌<◌, ◌≡◌, refl, Bool, true, false, ◌||◌, Option, none, some, List, [], ◌∷◌, ◌++◌,
  arith, ltb, leb, ◌==◌, if◌then◌else◌, length, take, drop,
}
use btypedb.Bytes.{Bytes, get_le, checksum}
use btypedb.Wal.Record.{WalRecord, op_set, op_set_ttl, rec_header_size, rec_crc_size, max_part_len}

-- How the input ends behind its bytes: at its end, or with an I/O failure.
pub data Ending : Type 0 where
  eof broken : Ending

pub record Reader : Type 0 where
  pub bytes : Bytes
  pub ending : Ending

-- `io.ReadFull`: the bytes that were asked for, or an end (`io.EOF`, `io.ErrUnexpectedEOF`), or
-- another error.
pub data Full : Type 0 where
  full : Bytes → Reader → Full
  short : Full
  failed : Full

abbrev pub short_read : Ending → Full
short_read eof = short
short_read broken = failed

unfoldable pub read_full : ℕ → Reader → Full
read_full n r =
    if leb n (length r.bytes)
    then full (take n r.bytes) (record r { bytes = drop n r.bytes })
    else short_read r.ending

-- What `readRecord` returns: `ok` with the record and its size, not `ok`, or a real error.
pub data Read : Type 0 where
  got : WalRecord → ℕ → Reader → Read
  none_left : Read
  read_error : Read

-- `binary.LittleEndian.Uint32(b[i : i+4])`
abbrev pub uint32_at : ℕ → Bytes → ℕ
uint32_at i b = get_le (take 4 (drop i b))

abbrev pub op_at : Bytes → ℕ
op_at [] = 0
op_at (b ∷ _) = b

-- The sanity test on a record header.
unfoldable pub bad_header : ℕ → ℕ → ℕ → Bool
bad_header op klen vlen =
    ltb op op_set || (ltb op_set_ttl op || (ltb max_part_len klen || ltb max_part_len vlen))

unfoldable pub check_body : Bytes → ℕ → ℕ → Bytes → Reader → Read
check_body hdr klen vlen body r =
    if checksum (hdr ++ take (klen + vlen) body) == uint32_at (klen + vlen) body
    then got (record { op = op_at hdr; key = take klen body; val = take vlen (drop klen body) })
        (rec_header_size + klen + vlen + rec_crc_size) r
    else none_left

abbrev pub on_body : Bytes → ℕ → ℕ → Full → Read
on_body hdr klen vlen (full body r) = check_body hdr klen vlen body r
on_body hdr klen vlen short = none_left
on_body hdr klen vlen failed = read_error

abbrev pub on_header : Full → Read
on_header (full hdr r) =
    let klen = uint32_at 1 hdr in
    let vlen = uint32_at 5 hdr in
    if bad_header (op_at hdr) klen vlen
    then none_left
    else on_body hdr klen vlen (read_full (klen + vlen + rec_crc_size) r)
on_header short = none_left
on_header failed = read_error

unfoldable pub read_record : Reader → Read
unfolding read_full bad_header check_body
read_record r = on_header (read_full rec_header_size r)
