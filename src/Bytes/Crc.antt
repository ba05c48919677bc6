-- ===== src/Bytes/Crc.antt =====
-- `crc32.ChecksumIEEE`: the reflected CRC-32 with polynomial 0xedb88320, bit by bit.
use Prim.Native.Nat.{bit_xor}
use btypedb.Prelude.{
  ℕ, zero, suc, ◌/◌, ◌%◌, ◌^◌, ◌<◌, ◌≡◌, refl, List, [], ◌∷◌, arith, ◌==◌, if◌then◌else◌,
}

shift_bit : ℕ → ℕ
shift_bit c = if c % 2 == 0 then c / 2 else bit_xor (c / 2) 0xedb88320

shift_bits : ℕ → ℕ → ℕ
shift_bits zero c = c
shift_bits (suc n) c = shift_bits n (shift_bit c)

update : ℕ → List ℕ → ℕ
update c [] = c
update c (b ∷ bs) = update (shift_bits 8 (bit_xor c b)) bs

pub checksum : List ℕ → ℕ
unfolding shift_bit shift_bits update
checksum bs = bit_xor (update 0xffffffff bs) 0xffffffff % 2 ^ 32

pub checksum-lt : (bs : List ℕ) → checksum bs < 2 ^ 32
unfolding checksum
checksum-lt bs = omega arith

-- The check value of CRC-32/ISO-HDLC: the sum of "123456789".
checksum_check :
    checksum (0x31 ∷ 0x32 ∷ 0x33 ∷ 0x34 ∷ 0x35 ∷ 0x36 ∷ 0x37 ∷ 0x38 ∷ 0x39 ∷ []) ≡ 0xcbf43926
unfolding checksum
checksum_check = refl
