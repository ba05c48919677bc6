-- ===== src/Codec.antt =====
-- codec.go: the codecs that the package gives, and what a codec is.
pub mod Laws
use btypedb.Prelude.{ℕ, ◌%◌, ◌^◌, ◌≡◌, Result, ok, err, decode_failure, ◌==◌, if◌then◌else◌, length}
use btypedb.Prelude.Int.{ℤ, to_uint64, to_int64}
use btypedb.Bytes.{Bytes, put_le, get_le}

pub record Codec (T : Type 0) : Type 0 where
  pub encode : T → Result Bytes
  pub decode : Bytes → Result T

-- What `Open` relies on: a value that was encoded is decoded again.
abbrev pub RoundTrips : {T : Type 0} → Codec T → Type 0
RoundTrips {T} c = (t : T) (b : Bytes) → c.encode t ≡ ok b → c.decode b ≡ ok t

-- `BytesCodec`, and `StringCodec` on the bytes of the string.
unfoldable pub bytes_codec : Codec Bytes
bytes_codec = record { encode = λ b. ok b; decode = λ b. ok b }

unfoldable pub int64_codec : Codec ℤ
int64_codec = record {
  encode = λ n. ok (put_le 8 (to_uint64 n));
  decode = λ b. if length b == 8 then ok (to_int64 (get_le b)) else err decode_failure;
}

unfoldable pub uint64_codec : Codec ℕ
uint64_codec = record {
  encode = λ n. ok (put_le 8 (n % 2 ^ 64));
  decode = λ b. if length b == 8 then ok (get_le b) else err decode_failure;
}
