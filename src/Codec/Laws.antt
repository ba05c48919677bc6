-- ===== src/Codec/Laws.antt =====
-- The fixed-width codecs return what they were given, and take nothing of another length.
use btypedb.Prelude.{
  ℕ, ◌%◌, ◌^◌, ◌<◌, ◌≡◌, ap, ok, ◌==◌, length, arith, All, Bool-cases, inl, inr, true, ==_iff,
}
use btypedb.Prelude.Int.{
  ℤ, IsInt64, to_uint64, to_int64, to_uint64-lt, to_int64-IsInt64, to_int64-to_uint64,
  to_uint64-to_int64,
}
use btypedb.Bytes.{
  Bytes, IsByte, put_le, get_le, length-put_le, get_le-put_le, put_le-get_le, get_le-lt,
}
use btypedb.Codec.{int64_codec, uint64_codec}

eight : (x : ℕ) → (length (put_le 8 x) == 8) ≡ true
eight x = rw (length-put_le 8 x)

ok_injective {ℓ} : {A : Type ℓ} {a b : A} → ok a ≡ ok b → a ≡ b
ok_injective h = cc

-- Every int64 comes back from its eight bytes.
pub int64-round :
    (n : ℤ) (b : Bytes) → IsInt64 n → int64_codec.encode n ≡ ok b → int64_codec.decode b ≡ ok n
unfolding int64_codec
int64-round n b h e =
    rw (← ok_injective e, eight (to_uint64 n), get_le-put_le 8 (to_uint64 n) (to_uint64-lt n))
      (ap ok (to_int64-to_uint64 n h))

-- Bytes that decode to an int64 are its encoding, and the int64 is in range.
pub IsInt64-decode :
    (b : Bytes) (n : ℤ)
    → All IsByte b
    → int64_codec.decode b ≡ ok n
    → IsInt64 n × (int64_codec.encode n ≡ ok b)
unfolding int64_codec
IsInt64-decode b n h e = elim (Bool-cases (length b == 8)) [
  | inl whole ↦
      let size : length b ≡ 8 = (==_iff (length b) 8).0 whole in
      let same : to_int64 (get_le b) ≡ n = ok_injective (rw whole at e) in
      let small : get_le b < 2 ^ 64 = rw size at (get_le-lt b h) in
      let rebuilt : put_le 8 (get_le b) ≡ b = rw size at (put_le-get_le b h) in
      rw (← same) (
        to_int64-IsInt64 (get_le b) small,
        ap ok (rw (to_uint64-to_int64 (get_le b) small) rebuilt),
      )
  | inr other ↦ cc (rw other at e)
]

-- Every uint64 comes back from its eight bytes.
pub uint64-round :
    (n : ℕ) (b : Bytes) → n < 2 ^ 64 → uint64_codec.encode n ≡ ok b → uint64_codec.decode b ≡ ok n
unfolding uint64_codec
uint64-round n b h e =
    let kept : n % 2 ^ 64 ≡ n = omega arith in
    rw (← ok_injective e, kept, eight n, get_le-put_le 8 n h)
