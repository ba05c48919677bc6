-- ===== src/Db/Header.antt =====
-- `prepareHeader` of wal.go: what the first bytes of a file say, and the header of a new file.
pub mod Laws
pub mod Encrypted
use btypedb.Prelude.{
  ℕ, ◌-◌, Bool, true, false, not, ◌&&◌, Option, none, some, List, [], ◌∷◌, Result, ok, err, Error,
  io_failure, corrupt, newer_format, key_required, wrong_key, not_encrypted, cipher_mismatch, ltb,
  leb, ◌==◌, if◌then◌else◌, length, take, drop,
}
use btypedb.Bytes.{Bytes, get_le, checksum}
use btypedb.Encrypt.{WalCipher, header_for, log_magic, enc_format_version}
use btypedb.Wal.Scan.{scan_for_record}
use btypedb.Db.Handle.{File, WriteOutcome, wrote, cut_at}

abbrev pub log_format_version : ℕ
log_format_version = 2

abbrev pub log_header_size : ℕ
log_header_size = 16

abbrev pub log_header_size_v2 : ℕ
log_header_size_v2 = 44

abbrev pub hdr_flags_offset : ℕ
hdr_flags_offset = 16

abbrev pub hdr_kcv_offset : ℕ
hdr_kcv_offset = 20

-- `bytes.Equal`
unfoldable pub bytes_equal : Bytes → Bytes → Bool
bytes_equal [] [] = true
bytes_equal (x ∷ xs) (y ∷ ys) = let rest = bytes_equal xs ys in if x == y then rest else false
bytes_equal _ _ = false

-- What the system answers while a file is opened.
pub record OpenIo : Type 0 where
  pub stat : Bool
  pub read : Bool
  pub reset : Bool
  pub rewind : Bool
  pub sync : Bool
  pub write : WriteOutcome
  pub read_past : Bool  -- behind a header that fails its checksum
  pub seek_records : Bool
  pub replay_fails : Option ℕ  -- how many bytes the replay reads before a read fails
  pub stat_parsed : Bool  -- the `Stat` in front of the scan of the tail
  pub read_tail : Bool
  pub stat_valid : Bool  -- the `Stat` in front of the truncation
  pub truncate_tail : Bool
  pub seek_end : Bool

-- `writeFresh`
abbrev write_expected : OpenIo → Bytes → WriteOutcome → Result ℕ × File
write_expected io expected wrote =
    if io.sync
    then (ok (length expected), record { content = expected; durable = length expected })
    else (err io_failure, record { content = expected; durable = 0 })
write_expected io expected (cut_at n) =
    (err io_failure, record { content = take n expected; durable = 0 })

unfoldable pub write_fresh : OpenIo → Bytes → File → Result ℕ × File
write_fresh io expected f =
    if not io.reset
    then (err io_failure, f)
    else if not io.rewind
    then (err io_failure, record { content = []; durable = 0 })
    else write_expected io expected io.write

abbrev is_record : Option ℕ → Bool
is_record none = false
is_record (some _) = true

-- A header whose checksum fails: nothing behind it, or damage.
unfoldable pub bad_checksum : OpenIo → Bytes → File → Result ℕ × File
bad_checksum io expected f =
    if not io.read_past
    then (err io_failure, f)
    else if is_record (scan_for_record (drop log_header_size f.content))
    then (err corrupt, f)
    else write_fresh io expected f

abbrev slice : ℕ → ℕ → Bytes → Bytes
slice i j bs = take (j - i) (drop i bs)

-- The fields of an encrypted header, against those that would be written.
unfoldable pub check_encrypted : OpenIo → Bytes → Bytes → File → Result ℕ × File
check_encrypted io expected got f =
    if ltb (length f.content) log_header_size_v2
    then write_fresh io expected f
    else if not (
        bytes_equal (slice hdr_flags_offset hdr_kcv_offset got)
          (slice hdr_flags_offset hdr_kcv_offset expected))
    then (err cipher_mismatch, f)
    else if not (
        bytes_equal (slice hdr_kcv_offset log_header_size_v2 got)
          (slice hdr_kcv_offset log_header_size_v2 expected))
    then (err wrong_key, f)
    else (ok log_header_size_v2, f)

-- The version of an intact prefix, against the key that was given.
unfoldable pub check_version : OpenIo → Option WalCipher → Bytes → File → ℕ → Result ℕ × File
check_version io none got f version =
    if ltb log_format_version version
    then (err newer_format, f)
    else if leb enc_format_version version
    then (err key_required, f)
    else (ok log_header_size, f)
check_version io (some wc) got f version =
    if ltb log_format_version version
    then (err newer_format, f)
    else if leb enc_format_version version
    then check_encrypted io (header_for (some wc)) got f
    else (err not_encrypted, f)

-- A legacy log, without a header.
abbrev legacy : Option WalCipher → File → Result ℕ × File
legacy none f = (ok 0, f)
legacy (some _) f = (err not_encrypted, f)

unfoldable pub prepare_header : OpenIo → Option WalCipher → File → Result ℕ × File
prepare_header io cipher f =
    let expected = header_for cipher in
    let size = length f.content in
    let got = take log_header_size_v2 f.content in
    if not io.stat
    then (err io_failure, f)
    else if size == 0
    then write_fresh io expected f
    else if not io.read
    then (err io_failure, f)
    else if ltb size (length expected) && bytes_equal got (take size expected)
    then write_fresh io expected f
    else if ltb size log_header_size
    then legacy cipher f
    else if not (bytes_equal (take (length log_magic) got) log_magic)
    then legacy cipher f
    else if not (checksum (take 12 got) == get_le (slice 12 16 got))
    then bad_checksum io expected f
    else check_version io cipher got f (get_le (slice 8 12 got))
