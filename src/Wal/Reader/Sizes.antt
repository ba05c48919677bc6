-- ===== src/Wal/Reader/Sizes.antt =====
-- What `readRecord` takes from any input.
use btypedb.Prelude.{
  ℕ, ◌+◌, ◌≤◌, ◌≡◌, ◌≢◌, refl, ap, ◌∙◌, sym, true, false, inl, inr, ◌++◌, arith, leb, leb→le,
  Bool-cases, length, take, drop, length-append, length-take, take-append-drop, ◌==◌,
}
use btypedb.Bytes.{Bytes, checksum}
use btypedb.Wal.Record.{WalRecord}
use btypedb.Wal.Reader.{
  eof, broken, Reader, Full, full, short, failed, got, read_full, bad_header, check_body,
  read_record, on_header, on_body, uint32_at, op_at, short_read, Ending,
}

record Taken (n : ℕ) (r : Reader) (bs : Bytes) (r' : Reader) : Type 0 where
  pub count : length bs ≡ n
  pub split : r.bytes ≡ bs ++ r'.bytes

short_read-ne : (e : Ending) {bs : Bytes} {r : Reader} → short_read e ≢ full bs r
short_read-ne eof h = cc
short_read-ne broken h = cc

read_full-full :
    (n : ℕ) (r : Reader) (bs : Bytes) (r' : Reader) → read_full n r ≡ full bs r' → Taken n r bs r'
unfolding read_full
read_full-full n r bs r' h = elim (Bool-cases (leb n (length r.bytes))) [
  | inl enough ↦
      let e : full (take n r.bytes) (record r { bytes = drop n r.bytes }) ≡ full bs r' =
        rw enough at h in
      let front : bs ≡ take n r.bytes = cc e in
      let back : r'.bytes ≡ drop n r.bytes = ground (arith, e) in
      record {
        count = rw front (omega (arith, length-take n r.bytes, leb→le n (length r.bytes) enough));
        split = rw (front, back) (sym (take-append-drop n r.bytes));
      }
  | inr less ↦ absurd (short_read-ne r.ending (rw less at h))
]

-- What a successful read has found.
pub record Accepted (bytes : Bytes) (rec : WalRecord) (size : ℕ) (left : Bytes) : Type 0 where
  pub hdr : Bytes
  pub body : Bytes
  pub klen : ℕ
  pub vlen : ℕ
  pub hdr_length : length hdr ≡ 9
  pub body_length : length body ≡ klen + vlen + 4
  pub bytes_split : bytes ≡ hdr ++ (body ++ left)
  pub klen_eq : klen ≡ uint32_at 1 hdr
  pub vlen_eq : vlen ≡ uint32_at 5 hdr
  pub good : bad_header (op_at hdr) klen vlen ≡ false
  pub sum : (checksum (hdr ++ take (klen + vlen) body) == uint32_at (klen + vlen) body) ≡ true
  pub rec_eq :
      rec ≡ record { op = op_at hdr; key = take klen body; val = take vlen (drop klen body) }
  pub size_eq : size ≡ 9 + klen + vlen + 4

check_body-got :
    (hdr : Bytes) (klen vlen : ℕ) (body : Bytes) (r2 : Reader) (rec : WalRecord) (size : ℕ)
    (r' : Reader)
    → check_body hdr klen vlen body r2 ≡ got rec size r'
    → ((checksum (hdr ++ take (klen + vlen) body) == uint32_at (klen + vlen) body) ≡ true)
      × (rec ≡ record { op = op_at hdr; key = take klen body; val = take vlen (drop klen body) })
      × (size ≡ 9 + klen + vlen + 4)
      × (r' ≡ r2)
unfolding check_body
check_body-got hdr klen vlen body r2 rec size r' h =
    elim (Bool-cases (checksum (hdr ++ take (klen + vlen) body) == uint32_at (klen + vlen) body)) [
      | inl same ↦ let e = rw same at h in (same, cc e, ground (arith, e), cc e)
      | inr other ↦ cc (rw other at h)
    ]

module _ (rec : WalRecord) (size : ℕ) (r' : Reader) where
  on_body-got :
      (hdr : Bytes) (klen vlen : ℕ) (f : Full)
      → on_body hdr klen vlen f ≡ got rec size r'
      → (body : Bytes) × (r2 : Reader) × (f ≡ full body r2)
        × (check_body hdr klen vlen body r2 ≡ got rec size r')
  on_body-got hdr klen vlen (full body r2) h = (body, r2, refl, h)
  on_body-got hdr klen vlen short h = cc
  on_body-got hdr klen vlen failed h = cc

  on_header-got :
      (f : Full)
      → on_header f ≡ got rec size r'
      → (hdr : Bytes) × (r1 : Reader) × (f ≡ full hdr r1)
        × (bad_header (op_at hdr) (uint32_at 1 hdr) (uint32_at 5 hdr) ≡ false)
        × (on_body hdr
              (uint32_at 1 hdr)
              (uint32_at 5 hdr)
              (read_full (uint32_at 1 hdr + uint32_at 5 hdr + 4) r1)
            ≡ got rec size r')
  on_header-got (full hdr r1) h =
      elim (Bool-cases (bad_header (op_at hdr) (uint32_at 1 hdr) (uint32_at 5 hdr))) [
        | inl bad ↦ cc (rw bad at h)
        | inr good ↦ (hdr, r1, refl, good, rw good at h)
      ]
  on_header-got short h = cc
  on_header-got failed h = cc

  pub read_record-got :
      (r : Reader) → read_record r ≡ got rec size r' → Accepted r.bytes rec size r'.bytes
  read_record-got r h =
      let start : on_header (read_full 9 r) ≡ got rec size r' = unfold read_record in h in
      let (hdr, r1, e1, good, rest) = on_header-got (read_full 9 r) start in
      let klen = uint32_at 1 hdr in
      let vlen = uint32_at 5 hdr in
      let (body, r2, e2, checked) =
        on_body-got hdr klen vlen (read_full (klen + vlen + 4) r1) rest in
      let (sum, rec_is, size_is, same) = check_body-got hdr klen vlen body r2 rec size r' checked in
      let t1 = read_full-full 9 r hdr r1 e1 in
      let t2 = read_full-full (klen + vlen + 4) r1 body r2 e2 in
      record {
        hdr = hdr;
        body = body;
        klen = klen;
        vlen = vlen;
        hdr_length = t1.count;
        body_length = t2.count;
        bytes_split = rw (same) (t1.split ∙ ap (λ l. hdr ++ l) t2.split);
        klen_eq = refl;
        vlen_eq = refl;
        good = good;
        sum = sum;
        rec_eq = rec_is;
        size_eq = size_is;
      }

  -- A successful read takes its size off the input, and that is 13 bytes at least.
  pub read_record-size :
      (r : Reader)
      → read_record r ≡ got rec size r'
      → (length r'.bytes + size ≡ length r.bytes) × (13 ≤ size)
  read_record-size r h =
      let a = read_record-got r h in
      (
        omega (
          arith,
          ap length a.bytes_split,
          length-append a.hdr (a.body ++ r'.bytes),
          length-append a.body r'.bytes,
          a.hdr_length,
          a.body_length,
          a.size_eq,
        ),
        omega (arith, a.size_eq),
      )
