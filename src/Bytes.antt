-- ===== src/Bytes.antt =====
-- `encoding/binary` in little-endian order, and `hash/crc32`, as wal.go and codec.go use them.
mod Crc
pub use Crc.{checksum, checksum-lt}
use btypedb.Prelude.{
  ℕ, zero, suc, ◌+◌, ◌*◌, ◌/◌, ◌%◌, ◌^◌, ◌<◌, ◌≡◌, refl, List, [], ◌∷◌, arith, length, All,
}

abbrev pub Bytes : Type 0
Bytes = List ℕ

abbrev pub IsByte : ℕ → Type 0
IsByte b = b < 256

-- The `w` low bytes of a number, lowest first: PutUint32 and PutUint64.
unfoldable pub put_le : ℕ → ℕ → Bytes
put_le zero x = []
put_le (suc w) x = (x % 256) ∷ put_le w (x / 256)

-- Uint32 and Uint64, on the bytes of the word.
unfoldable pub get_le : Bytes → ℕ
get_le [] = 0
get_le (b ∷ bs) = b + 256 * get_le bs

pub length-put_le : (w x : ℕ) → length (put_le w x) ≡ w
unfolding put_le
length-put_le zero x = refl
length-put_le (suc w) x = omega (arith, length-put_le w (x / 256))

pub get_le-put_le : (w x : ℕ) → x < 256 ^ w → get_le (put_le w x) ≡ x
unfolding put_le get_le
get_le-put_le zero x h = omega arith
get_le-put_le (suc w) x h = ground (arith, get_le-put_le w (x / 256))

pub get_le-lt : (bs : Bytes) → All IsByte bs → get_le bs < 256 ^ length bs
unfolding get_le
get_le-lt [] h = omega arith
get_le-lt (b ∷ bs) h = ground (arith, get_le-lt bs)

pub put_le-get_le : (bs : Bytes) → All IsByte bs → put_le (length bs) (get_le bs) ≡ bs
unfolding put_le get_le
put_le-get_le [] h = refl
put_le-get_le (b ∷ bs) h = ground (arith, put_le-get_le bs)

pub put_le-IsByte : (w x : ℕ) → All IsByte (put_le w x)
unfolding put_le
put_le-IsByte zero x = tt
put_le-IsByte (suc w) x = (omega arith, put_le-IsByte w (x / 256))
