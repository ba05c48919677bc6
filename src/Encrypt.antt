-- ===== src/Encrypt.antt =====
-- encrypt.go: sealing of record values, and the header that a log carries.
pub mod Laws
use btypedb.Prelude.{
  ℕ, zero, suc, ◌+◌, ◌*◌, ◌%◌, ◌^◌, ◌≡◌, Option, none, some, List, [], ◌∷◌, ◌++◌, not, Result, ok,
  err, ◌>>=◌, Error, io_failure, decrypt_failure, bad_argument, ◌==◌, ltb, if◌then◌else◌, length,
  take, drop,
}
use btypedb.Bytes.{Bytes, put_le, checksum}
use btypedb.Wal.Record.{op_delete, append_record}

-- `cipher.AEAD`
pub record Aead : Type 0 where
  pub nonce_size : ℕ
  pub overhead : ℕ
  pub seal : Bytes → Bytes → Bytes → Bytes  -- nonce, plaintext, additional data
  pub unseal : Bytes → Bytes → Bytes → Option Bytes  -- `Open`: nonce, ciphertext, additional data

pub record WalCipher : Type 0 where
  pub rec : Aead
  pub kcv : Aead
  pub cipher_id : ℕ
  pub scope : ℕ

abbrev pub hdr_flag_encrypted : ℕ
hdr_flag_encrypted = 1

abbrev pub cipher_aes256_gcm : ℕ
cipher_aes256_gcm = 1

abbrev pub scope_value_only : ℕ
scope_value_only = 0

abbrev pub plain_format_version : ℕ
plain_format_version = 1

abbrev pub enc_format_version : ℕ
enc_format_version = 2

-- "btydbLOG"
abbrev pub log_magic : Bytes
log_magic = 0x62 ∷ 0x74 ∷ 0x79 ∷ 0x64 ∷ 0x62 ∷ 0x4c ∷ 0x4f ∷ 0x47 ∷ []

-- "btydbKCV"
abbrev pub kcv_const : Bytes
kcv_const = 0x62 ∷ 0x74 ∷ 0x79 ∷ 0x64 ∷ 0x62 ∷ 0x4b ∷ 0x43 ∷ 0x56 ∷ []

-- The fields do not overlap where the cipher id is below 16, so `|` is `+`.
unfoldable pub flags : WalCipher → ℕ
flags wc = (hdr_flag_encrypted + wc.cipher_id * 2 + wc.scope * 32) % 2 ^ 32

-- `make([]byte, n)`
abbrev pub zeros : ℕ → Bytes
zeros zero = []
zeros (suc n) = 0 ∷ zeros n

-- The prefix that both formats share: magic, version, checksum.
unfoldable pub prefix : ℕ → Bytes
prefix version =
    log_magic ++ (put_le 4 version ++ put_le 4 (checksum (log_magic ++ put_le 4 version)))

-- `logHeader`
unfoldable pub log_header : Bytes
log_header = prefix plain_format_version

-- `header`
unfoldable pub cipher_header : WalCipher → Bytes
unfolding prefix flags
cipher_header wc =
    let h = prefix enc_format_version ++ put_le 4 (flags wc) in
    h ++ wc.kcv.seal (zeros wc.kcv.nonce_size) kcv_const h

unfoldable pub header_for : Option WalCipher → Bytes
header_for none = log_header
header_for (some wc) = cipher_header wc

abbrev pub record_aad : ℕ → Bytes → Bytes
record_aad op key = op ∷ key

-- The nonce is what `rand.Read` gave, if it gave something.
unfoldable pub seal_value : WalCipher → Option Bytes → ℕ → Bytes → Bytes → Result Bytes
seal_value wc none op key val = err io_failure
seal_value wc (some nonce) op key val = ok (nonce ++ wc.rec.seal nonce val (record_aad op key))

unfoldable pub append_sealed_record :
    Bytes → Option WalCipher → Option Bytes → ℕ → Bytes → Bytes → Result Bytes
unfolding seal_value
append_sealed_record dst none rand op key val = ok (append_record dst op key val)
append_sealed_record dst (some wc) rand op key val =
    if op == op_delete
    then ok (append_record dst op key val)
    else seal_value wc rand op key val >>= λ sealed. ok (append_record dst op key sealed)

abbrev opened : Bytes → Option Bytes → Result (Bytes × Bytes)
opened key none = err decrypt_failure
opened key (some val) = ok (key, val)

unfoldable pub open_record : Option WalCipher → ℕ → Bytes → Bytes → Result (Bytes × Bytes)
open_record none op key val = ok (key, val)
open_record (some wc) op key val =
    if op == op_delete
    then ok (key, val)
    else if ltb (length val) (wc.rec.nonce_size + wc.rec.overhead)
    then err decrypt_failure
    else opened key (
        wc.rec.unseal (take wc.rec.nonce_size val) (drop wc.rec.nonce_size val) (record_aad op key))

-- `newWalCipher`: key derivation and the cipher are the standard library's.
pub record Crypto : Type 0 where
  pub hkdf : Bytes → Bytes → Result Bytes  -- master, info label
  pub gcm : Bytes → Result Aead

-- "btypedb/wal/record/v2"
abbrev pub record_label : Bytes
record_label =
    0x62 ∷ 0x74 ∷ 0x79 ∷ 0x70 ∷ 0x65 ∷ 0x64 ∷ 0x62 ∷ 0x2f ∷ 0x77 ∷ 0x61 ∷ 0x6c ∷ 0x2f ∷ 0x72 ∷ 0x65
    ∷ 0x63 ∷ 0x6f ∷ 0x72 ∷ 0x64 ∷ 0x2f ∷ 0x76 ∷ 0x32 ∷ []

-- "btypedb/wal/kcv/v2"
abbrev pub kcv_label : Bytes
kcv_label =
    0x62 ∷ 0x74 ∷ 0x79 ∷ 0x70 ∷ 0x65 ∷ 0x64 ∷ 0x62 ∷ 0x2f ∷ 0x77 ∷ 0x61 ∷ 0x6c ∷ 0x2f ∷ 0x6b ∷ 0x63
    ∷ 0x76 ∷ 0x2f ∷ 0x76 ∷ 0x32 ∷ []

unfoldable pub new_wal_cipher : Crypto → Bytes → Result WalCipher
new_wal_cipher crypto master = if not (length master == 32) then err bad_argument else do
  rec_key ← crypto.hkdf master record_label
  kcv_key ← crypto.hkdf master kcv_label
  rec_aead ← crypto.gcm rec_key
  kcv_aead ← crypto.gcm kcv_key
  ok (record {
    rec = rec_aead;
    kcv = kcv_aead;
    cipher_id = cipher_aes256_gcm;
    scope = scope_value_only;
  })
