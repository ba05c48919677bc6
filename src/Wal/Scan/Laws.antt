-- ===== src/Wal/Scan/Laws.antt =====
-- The scan finds the first offset at which a record could be read.
use native.Mathlib.Decide.{dec_lt}
use btypedb.Prelude.{
  ℕ, zero, suc, ◌+◌, ◌≤◌, ◌<◌, ◌≡◌, refl, ◌∙◌, sym, Bool, true, false, Option, none, some, [], ◌∷◌,
  ◌++◌, arith, ltb, if◌then◌else◌, inl, inr, Bool-cases, length, take, drop, take-add, take-take,
  take-drop-take, le→leb, drop-drop, drop-length_append, length-drop,
}
use btypedb.Bytes.{Bytes}
use btypedb.Wal.Record.{WalRecord, Fits, frame_of}
use btypedb.Wal.Reader.{
  eof, full, Read, got, none_left, read_error, read_full, bad_header, check_body, read_record,
  on_header, on_body, uint32_at, op_at,
}
use btypedb.Wal.Reader.Framing.{over, read_record-frame}
use btypedb.Wal.Reader.Sizes.{read_record-size}
use btypedb.Wal.Scan.{intact_at, scan_from, scan_for_record}

abbrev pub is_got : Read → Bool
is_got (got _ _ _) = true
is_got _ = false

-- A record is read from these bytes.
abbrev pub readable : Bytes → Bool
readable bs = is_got (read_record (over eof bs))

op_at-take : (bs : Bytes) → op_at (take 9 bs) ≡ op_at bs
op_at-take [] = refl
op_at-take (b ∷ bs) = refl

module _ (bs : Bytes) (h : 13 ≤ length bs) where
  abbrev klen : ℕ
  klen = uint32_at 1 bs

  abbrev vlen : ℕ
  vlen = uint32_at 5 bs

  abbrev body : Bytes
  body = take (klen + vlen + 4) (drop 9 bs)

  header_read : readable bs ≡ is_got (on_header (full (take 9 bs) (over eof (drop 9 bs))))
  unfolding read_record read_full
  header_read = rw (le→leb 9 (length bs) (omega arith))

  header_fields : (on_header (full (take 9 bs) (over eof (drop 9 bs)))) ≡ (
      if bad_header (op_at bs) klen vlen
      then none_left
      else on_body (take 9 bs) klen vlen (read_full (klen + vlen + 4) (over eof (drop 9 bs))))
  header_fields =
      rw (
        op_at-take bs,
        take-drop-take 1 4 9 bs (omega arith),
        take-drop-take 5 4 9 bs (omega arith),
      )

  body_sum : take 9 bs ++ take (klen + vlen) body ≡ take (9 + klen + vlen) bs
  body_sum =
      let e : 9 + klen + vlen ≡ 9 + (klen + vlen) = omega arith in
      rw (take-take (klen + vlen) (klen + vlen + 4) (drop 9 bs) (omega arith), e)
        (sym (take-add 9 (klen + vlen) bs))

  body_stored : uint32_at (klen + vlen) body ≡ uint32_at (9 + klen + vlen) bs
  body_stored =
      let e : 9 + klen + vlen ≡ 9 + (klen + vlen) = omega arith in
      rw (
        take-drop-take (klen + vlen) 4 (klen + vlen + 4) (drop 9 bs) (omega arith),
        e,
        drop-drop (klen + vlen) 9 bs,
      )

  -- The test of the scan agrees with `readRecord`.
  pub intact_at-readable : intact_at bs ≡ readable bs
  unfolding intact_at bad_header read_full check_body
  intact_at-readable =
      rw (header_read, header_fields) (ground (arith, body_sum, body_stored, length-drop 9 bs))

readable_short : (bs : Bytes) → length bs < 13 → readable bs ≡ false
readable_short bs h = go (read_record (over eof bs)) refl
  where
    go : (r : Read) → read_record (over eof bs) ≡ r → is_got r ≡ false
    go (got rec size r') e = absurd (omega (arith, read_record-size rec size r' (over eof bs) e))
    go none_left e = refl
    go read_error e = refl

-- The first offset of `bs` at which a record can be read, if there is one; `i` is the offset of
-- `bs` itself.
abbrev FirstFrom : ℕ → Bytes → Option ℕ → Type 0
FirstFrom i bs none = (j : ℕ) → readable (drop j bs) ≡ false
FirstFrom i bs (some k) =
    (n : ℕ) × (k ≡ i + n)
    × (readable (drop n bs) ≡ true)
    × ((j : ℕ) → j < n → readable (drop j bs) ≡ false)

FirstFrom-cons :
    (i b : ℕ) (bs : Bytes) (o : Option ℕ)
    → readable (b ∷ bs) ≡ false
    → FirstFrom (i + 1) bs o
    → FirstFrom i (b ∷ bs) o
FirstFrom-cons i b bs none no_here f = elim [ zero ↦ no_here | suc j ↦ f j ]
FirstFrom-cons i b bs (some k) no_here (n, e, found, before) =
    (suc n, omega arith, found, λ j lt. earlier j lt)
  where
    earlier : (j : ℕ) → j < suc n → readable (drop j (b ∷ bs)) ≡ false
    earlier zero lt = no_here
    earlier (suc j) lt = before j (omega arith)

readable_tail : (bs : Bytes) → length bs < 13 → (j : ℕ) → readable (drop j bs) ≡ false
readable_tail bs h j = readable_short (drop j bs) (omega (arith, length-drop j bs))

scan_from-first : (i : ℕ) (bs : Bytes) → FirstFrom i bs (scan_from i bs)
unfolding scan_from
scan_from-first i [] = readable_tail [] (omega arith)
scan_from-first i (b ∷ bs) = elim (dec_lt (length (b ∷ bs)) 13) [
  | yes few ↦ rw (le→ltb few) (readable_tail (b ∷ bs) few)
  | no enough ↦
      let e = intact_at-readable (b ∷ bs) (omega arith) in
      rw (ltb_false enough) (elim (Bool-cases (intact_at (b ∷ bs))) [
        | inl here ↦ rw here (0, omega arith, sym e ∙ here, λ j lt. absurd (omega arith))
        | inr other ↦
            rw other (FirstFrom-cons i b bs _ (sym e ∙ other) (scan_from-first (i + 1) bs))
      ])
]
  where
    le→ltb : length (b ∷ bs) < 13 → ltb (length (b ∷ bs)) 13 ≡ true
    le→ltb h = ground arith

    ltb_false : ¬ (length (b ∷ bs) < 13) → ltb (length (b ∷ bs)) 13 ≡ false
    ltb_false h = ground arith

-- What the scan returns: the first offset at which a record can be read, or `none` where there is
-- no such offset.
abbrev pub FirstRecord : Bytes → Option ℕ → Type 0
FirstRecord bs none = (j : ℕ) → readable (drop j bs) ≡ false
FirstRecord bs (some n) =
    (readable (drop n bs) ≡ true) × ((j : ℕ) → j < n → readable (drop j bs) ≡ false)

FirstFrom-zero : (bs : Bytes) (o : Option ℕ) → FirstFrom 0 bs o → FirstRecord bs o
FirstFrom-zero bs none f = f
FirstFrom-zero bs (some k) (n, e, found, before) =
    let same : k ≡ n = omega arith in rw same (found, before)

-- `scanForRecord` returns the first offset at which `readRecord` reads a record, and `none` exactly
-- where it reads one at no offset.
pub scan_for_record-first : (bs : Bytes) → FirstRecord bs (scan_for_record bs)
unfolding scan_for_record
scan_for_record-first bs = FirstFrom-zero bs (scan_from 0 bs) (scan_from-first 0 bs)

-- A whole record is never missed: the scan stops at it or before it, whatever stands around it.
pub scan_for_record-finds :
    (front : Bytes) (r : WalRecord) (back : Bytes)
    → Fits r
    → (n : ℕ) × (scan_for_record (front ++ (frame_of r ++ back)) ≡ some n) × (n ≤ length front)
scan_for_record-finds front r back f = go (scan_for_record bs) (scan_for_record-first bs) refl
  where
    bs : Bytes
    bs = front ++ (frame_of r ++ back)

    here : readable (drop (length front) bs) ≡ true
    here = rw (drop-length_append front (frame_of r ++ back), read_record-frame eof r back f)

    go :
        (o : Option ℕ)
        → FirstRecord bs o
        → scan_for_record bs ≡ o
        → (n : ℕ) × (scan_for_record bs ≡ some n) × (n ≤ length front)
    go none all e = cc (all (length front), here)
    go (some n) (found, before) e = (
      n,
      e,
      elim (dec_lt (length front) n) [
        | yes lt ↦ cc (before (length front) lt, here)
        | no ge ↦ omega arith
      ],
    )
