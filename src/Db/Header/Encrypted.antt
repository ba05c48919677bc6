-- ===== src/Db/Header/Encrypted.antt =====
-- The header of an encrypted log, against the key that `Open` was given.
use btypedb.Prelude.{
  ℕ, ◌+◌, ◌≤◌, ◌≡◌, refl, ap, ◌∙◌, Bool, true, false, Option, none, some, ◌++◌, ok, err, ltb,
  length, take, drop, arith, length-append, take-length_append, drop-length_append, append_assoc,
  sym, not, if◌then◌else◌, Result, key_required, wrong_key, cipher_mismatch, take_all,
}
use btypedb.Bytes.{Bytes, put_le, length-put_le}
use btypedb.Encrypt.{WalCipher, cipher_header, header_for, prefix, flags, zeros, kcv_const}
use btypedb.Db.Handle.{File}
use btypedb.Db.Header.{OpenIo, prepare_header, check_version, check_encrypted, bytes_equal}
use btypedb.Db.Header.Laws.{
  bytes_equal_refl, length-prefix, prepare_header-check_version, length-log_header,
  prepare_header-plain,
}

-- The tag that proves the key.
abbrev pub key_tag : WalCipher → Bytes
key_tag wc = wc.kcv.seal (zeros wc.kcv.nonce_size) kcv_const (prefix 2 ++ put_le 4 (flags wc))

-- AES-GCM: 8 bytes are sealed to 24.
abbrev pub HasKeyTag : WalCipher → Type 0
HasKeyTag wc = length (key_tag wc) ≡ 24

cipher_header-split :
    (wc : WalCipher) → cipher_header wc ≡ prefix 2 ++ (put_le 4 (flags wc) ++ key_tag wc)
unfolding cipher_header
cipher_header-split wc = append_assoc (prefix 2) (put_le 4 (flags wc)) (key_tag wc)

pub length-cipher_header : (wc : WalCipher) → HasKeyTag wc → length (cipher_header wc) ≡ 44
length-cipher_header wc h = omega (
  arith,
  h,
  ap length (cipher_header-split wc),
  length-append (prefix 2) (put_le 4 (flags wc) ++ key_tag wc),
  length-append (put_le 4 (flags wc)) (key_tag wc),
  length-prefix 2 (omega arith),
  length-put_le 4 (flags wc),
)

flags_slice : (wc : WalCipher) → take 4 (drop 16 (cipher_header wc)) ≡ put_le 4 (flags wc)
flags_slice wc =
    let body = put_le 4 (flags wc) ++ key_tag wc in
    let behind : drop 16 (prefix 2 ++ body) ≡ body =
      rw (length-prefix 2 (omega arith)) at (drop-length_append (prefix 2) body) in
    let front : take 4 body ≡ put_le 4 (flags wc) =
      rw (length-put_le 4 (flags wc)) at (take-length_append (put_le 4 (flags wc)) (key_tag wc)) in
    rw (cipher_header-split wc, behind) front

tag_slice : (wc : WalCipher) → HasKeyTag wc → take 24 (drop 20 (cipher_header wc)) ≡ key_tag wc
tag_slice wc h =
    let front = prefix 2 ++ put_le 4 (flags wc) in
    let size : length front ≡ 20 = omega (
      arith,
      length-append (prefix 2) (put_le 4 (flags wc)),
      length-prefix 2 (omega arith),
      length-put_le 4 (flags wc),
    ) in
    let behind : drop 20 (front ++ key_tag wc) ≡ key_tag wc =
      rw size at (drop-length_append front (key_tag wc)) in
    let whole : cipher_header wc ≡ front ++ key_tag wc = (unfold cipher_header in refl) in
    ap (λ l. take 24 (drop 20 l)) whole
    ∙ ap (take 24) behind
    ∙ take_all 24 (key_tag wc) (omega (arith, h))

-- What the key that was given is told of a file that another cipher began.
abbrev pub key_verdict : WalCipher → Option WalCipher → Result ℕ
key_verdict wc none = err key_required
key_verdict wc (some given) =
    if not (bytes_equal (put_le 4 (flags wc)) (put_le 4 (flags given)))
    then err cipher_mismatch
    else if not (bytes_equal (key_tag wc) (key_tag given))
    then err wrong_key
    else ok 44

abbrev pub GivenHasKeyTag : Option WalCipher → Type 0
GivenHasKeyTag none = Unit
GivenHasKeyTag (some given) = HasKeyTag given

length-header_for_given :
    (given : Option WalCipher) → GivenHasKeyTag given → length (header_for given) ≤ 44
unfolding header_for
length-header_for_given none h = omega (arith, length-log_header)
length-header_for_given (some given) h = omega (arith, length-cipher_header given h)

verdict_pair :
    (same_flags same_tag : Bool) (f : File)
    → ◌≡◌ {A = Result ℕ × File}
        (if not same_flags
          then (err cipher_mismatch, f)
          else if not same_tag
          then (err wrong_key, f)
          else (ok 44, f))
        (
          if not same_flags
              then err cipher_mismatch
              else if not same_tag
              then err wrong_key
              else ok 44,
          f,
        )
verdict_pair true true f = refl
verdict_pair true false f = refl
verdict_pair false same_tag f = refl

module _ (io : OpenIo) (stat_ok : io.stat ≡ true) (read_ok : io.read ≡ true) (wc : WalCipher)
    (tagged : HasKeyTag wc) (rest : Bytes) (durable : ℕ) where
  abbrev pub sealed_file : File
  sealed_file = record { content = cipher_header wc ++ rest; durable = durable }

  abbrev body : Bytes
  body = put_le 4 (flags wc) ++ (key_tag wc ++ rest)

  content-split : cipher_header wc ++ rest ≡ prefix 2 ++ body
  content-split =
      ap (λ l. l ++ rest) (cipher_header-split wc)
      ∙ append_assoc (prefix 2) (put_le 4 (flags wc) ++ key_tag wc) rest
      ∙ ap (λ l. prefix 2 ++ l) (append_assoc (put_le 4 (flags wc)) (key_tag wc) rest)

  header_read : take 44 (prefix 2 ++ body) ≡ cipher_header wc
  header_read =
      ap (take 44) (sym content-split)
      ∙ (rw (length-cipher_header wc tagged) at (take-length_append (cipher_header wc) rest))

  length-body : length body ≡ 28 + length rest
  length-body = omega (
    arith,
    tagged,
    length-append (put_le 4 (flags wc)) (key_tag wc ++ rest),
    length-append (key_tag wc) rest,
    length-put_le 4 (flags wc),
  )

  long_enough :
      (given : Option WalCipher)
      → length (header_for given) ≤ 44
      → ltb (16 + length body) (length (header_for given)) ≡ false
  long_enough given h = ground (arith, h, length-body)

  content-read : take 44 (cipher_header wc ++ rest) ≡ cipher_header wc
  content-read = ap (take 44) content-split ∙ header_read

  check_version-key :
      (given : Option WalCipher)
      → GivenHasKeyTag given
      → check_version io given (cipher_header wc) sealed_file 2
        ≡ (key_verdict wc given, sealed_file)
  unfolding check_version check_encrypted header_for
  check_version-key none h = refl
  check_version-key (some given) h =
      let long : ltb (length (cipher_header wc ++ rest)) 44 ≡ false =
        ground (arith, length-append (cipher_header wc) rest, length-cipher_header wc tagged) in
      let mine = flags_slice wc in
      let theirs = flags_slice given in
      let my_tag = tag_slice wc tagged in
      let their_tag = tag_slice given h in
      rw (long, mine, theirs, my_tag, their_tag)
        (verdict_pair (bytes_equal (put_le 4 (flags wc)) (put_le 4 (flags given)))
          (bytes_equal (key_tag wc) (key_tag given)) sealed_file)

  -- What `Open` makes of a file that begins with the header of a cipher, and that can be read, for
  -- whatever key it was given: ErrKeyRequired without one, a mismatch of the cipher where its flags
  -- are others, ErrWrongKey where the tag that the key seals is another, and else the records begin
  -- behind the 44 bytes of the header. The file is left as it is. Sealing takes 8 bytes to 24.
  pub prepare_header-key :
      (given : Option WalCipher)
      → GivenHasKeyTag given
      → prepare_header io given sealed_file ≡ (key_verdict wc given, sealed_file)
  prepare_header-key given h =
      let passes =
        prepare_header-check_version 2 (omega arith) body io given durable stat_ok read_ok
          (long_enough given (length-header_for_given given h)) in
      let same_file : sealed_file ≡ record { content = prefix 2 ++ body; durable = durable } =
        ap (λ l. record { content = l; durable = durable }) content-split in
      ap (prepare_header io given) same_file
      ∙ passes
      ∙ rw⁻¹ content-split (rw content-read (check_version-key given h))

-- A file that begins with the header of the key that was given, or with the plain header and no key:
-- the records begin behind it, and nothing is written.
pub prepare_header-header_for :
    (io : OpenIo) (rest : Bytes) (durable : ℕ)
    → io.stat ≡ true
    → io.read ≡ true
    → (given : Option WalCipher) → GivenHasKeyTag given
    → prepare_header io given (record { content = header_for given ++ rest; durable = durable }) ≡ (
      ok (length (header_for given)),
      record { content = header_for given ++ rest; durable = durable },
    )
unfolding header_for
prepare_header-header_for io rest durable stat_ok read_ok none h =
    rw length-log_header (prepare_header-plain io rest durable stat_ok read_ok)
prepare_header-header_for io rest durable stat_ok read_ok (some wc) h =
    let same_flags = bytes_equal_refl (put_le 4 (flags wc)) in
    let same_tag = bytes_equal_refl (key_tag wc) in
    rw (length-cipher_header wc h) (
      rw (same_flags, same_tag) at
        (prepare_header-key io stat_ok read_ok wc h rest durable (some wc) h))
