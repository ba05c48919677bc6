-- ===== src/Db/Header/Laws.antt =====
-- What `prepareHeader` makes of a file that begins with a header, plain or encrypted, for each key.
use btypedb.Prelude.{
  ℕ, ◌+◌, ◌≡◌, refl, ap, true, false, Option, none, [], ◌∷◌, ◌++◌, ok, ltb, ◌==◌, ==_refl, length,
  take, drop, arith, length-append, take-length_append, take-take, ◌<◌,
}
use btypedb.Bytes.{Bytes, put_le, get_le, length-put_le, get_le-put_le, checksum, checksum-lt}
use btypedb.Encrypt.{WalCipher, log_header, log_magic, header_for, prefix}
use btypedb.Db.Header.{OpenIo, prepare_header, check_version, bytes_equal}

pub bytes_equal_refl : (bs : Bytes) → bytes_equal bs bs ≡ true
unfolding bytes_equal
bytes_equal_refl [] = refl
bytes_equal_refl (b ∷ bs) = rw (==_refl b, bytes_equal_refl bs)

abbrev versioned : ℕ → Bytes
versioned v = log_magic ++ (v ∷ 0 ∷ 0 ∷ 0 ∷ [])

abbrev sum : ℕ → Bytes
sum v = put_le 4 (checksum (versioned v))

prefix-split : (v : ℕ) → v < 256 → prefix v ≡ versioned v ++ sum v
unfolding prefix
prefix-split v h =
    let one : put_le 4 v ≡ v ∷ 0 ∷ 0 ∷ 0 ∷ [] = (unfold put_le in ground (arith, h)) in rw one

pub length-prefix : (v : ℕ) → v < 256 → length (prefix v) ≡ 16
length-prefix v h = omega (
  arith,
  ap length (prefix-split v h),
  length-append (versioned v) (sum v),
  length-put_le 4 (checksum (versioned v)),
)

pub length-log_header : length log_header ≡ 16
unfolding log_header
length-log_header = length-prefix 1 (omega arith)

-- The first 44 bytes of a file that begins with an intact prefix.
module _ (v : ℕ) (small : v < 256) (rest : Bytes) where
  abbrev got : Bytes
  got = take 44 (prefix v ++ rest)

  got-split : got ≡ versioned v ++ take 32 (sum v ++ rest)
  got-split = rw (prefix-split v small)

  sum_read : get_le (take 4 (take 32 (sum v ++ rest))) ≡ checksum (versioned v)
  sum_read =
      let four = length-put_le 4 (checksum (versioned v)) in
      let front : take 4 (sum v ++ rest) ≡ sum v = rw four at (take-length_append (sum v) rest) in
      rw (take-take 4 32 (sum v ++ rest) (omega arith), front)
        (get_le-put_le 4 (checksum (versioned v)) (omega (arith, checksum-lt (versioned v))))

  magic_read : bytes_equal (take 8 got) log_magic ≡ true
  magic_read = rw got-split (bytes_equal_refl log_magic)

  sum_matches : (checksum (take 12 got) == get_le (take 4 (drop 12 got))) ≡ true
  sum_matches = rw (got-split, sum_read, ==_refl (checksum (versioned v)))

  version_read : get_le (take 4 (drop 8 got)) ≡ v
  unfolding get_le
  version_read = rw got-split (omega arith)

  length-prefixed : length (prefix v ++ rest) ≡ 16 + length rest
  length-prefixed = omega (arith, length-append (prefix v) rest, length-prefix v small)

  -- A file that is as long as the header that is expected has its version looked at.
  pub prepare_header-check_version :
      (io : OpenIo) (cipher : Option WalCipher) (durable : ℕ)
      → io.stat ≡ true
      → io.read ≡ true
      → ltb (16 + length rest) (length (header_for cipher)) ≡ false
      → prepare_header io cipher (record { content = prefix v ++ rest; durable = durable })
        ≡ check_version io cipher got (record { content = prefix v ++ rest; durable = durable }) v
  unfolding prepare_header
  prepare_header-check_version io cipher durable stat_ok read_ok long =
      let size = length-prefixed in
      let some_bytes : (length (prefix v ++ rest) == 0) ≡ false = ground (arith, size) in
      let enough : ltb (length (prefix v ++ rest)) 16 ≡ false = ground (arith, size) in
      let whole : ltb (length (prefix v ++ rest)) (length (header_for cipher)) ≡ false =
        rw size long in
      rw (stat_ok, read_ok, some_bytes, whole, enough, magic_read, sum_matches, version_read)

header_none : header_for none ≡ log_header
unfolding header_for
header_none = refl

-- A file that begins with the plain header is opened without a key: the records begin behind it, and
-- nothing is written.
pub prepare_header-plain :
    (io : OpenIo) (rest : Bytes) (durable : ℕ)
    → io.stat ≡ true
    → io.read ≡ true
    → prepare_header io none (record { content = log_header ++ rest; durable = durable })
      ≡ (ok 16, record { content = log_header ++ rest; durable = durable })
unfolding check_version log_header
prepare_header-plain io rest durable stat_ok read_ok =
    let long : ltb (16 + length rest) (length (header_for none)) ≡ false =
      rw header_none (ground (arith, length-log_header)) in
    prepare_header-check_version 1 (omega arith) rest io none durable stat_ok read_ok long
