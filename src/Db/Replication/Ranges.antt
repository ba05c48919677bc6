-- ===== src/Db/Replication/Ranges.antt =====
-- What `ReadLogRange` ships, whatever the copy answers.
use native.Mathlib.Decide.{dec_le}
use btypedb.Prelude.{
  ℕ, zero, suc, take_all, take-take, ◌+◌, ◌-◌, ◌≤◌, ◌≡◌, refl, sym, ap, ◌==◌, ltb, true, false,
  none, Error, closed, epoch_changed, bad_argument, [], ◌∷◌, List, length, take, drop, length-take,
  arith, Bool-cases, inl, inr, ◌⊎◌,
}
use btypedb.Prelude.Int.{ℤ, pos, negsuc}
use btypedb.Prelude.Order.{Order}
use btypedb.Bytes.{Bytes}
use btypedb.State.{Trees}
use btypedb.Db.Handle.{Db, WriteOutcome, wrote, cut_at}
use btypedb.Db.Replication.{Copied, refused, copy_section, min_ℕ, read_range, read_log_range}

take-length-take : {A : Type 0} (n : ℕ) (xs : List A) → take (length (take n xs)) xs ≡ take n xs
take-length-take zero xs = refl
take-length-take (suc n) [] = refl
take-length-take (suc n) (x ∷ xs) = ap (λ l. x ∷ l) (take-length-take n xs)

-- Some bytes of the log, from a position on, and not more than `max`.
pub record IsSlice (content : Bytes) (size from max : ℕ) (sent : Bytes) : Type 0 where
  pub short : length sent ≤ max
  pub inside : (sent ≡ []) ⊎ (from + length sent ≤ size)
  pub slice_eq : sent ≡ take (length sent) (drop from content)

nothing-IsSlice : (content : Bytes) (size from max : ℕ) → IsSlice content size from max []
nothing-IsSlice content size from max = record {
  short = omega arith;
  inside = inl refl;
  slice_eq = refl;
}

-- The first bytes of a section.
section-IsSlice :
    (content : Bytes) (size from max n : ℕ)
    → n ≤ max
    → from + n ≤ size
    → IsSlice content size from max (take n (drop from content))
section-IsSlice content size from max n h k = record {
  short = omega (arith, length-take n (drop from content));
  inside = inr (omega (arith, length-take n (drop from content)));
  slice_eq = sym (take-length-take n (drop from content));
}

copy_section-IsSlice :
    (w : WriteOutcome) (content : Bytes) (size from max n : ℕ)
    → n ≤ max
    → from + n ≤ size
    → IsSlice content size from max (copy_section w content from n).sent
unfolding copy_section
copy_section-IsSlice wrote content size from max n h k = section-IsSlice content size from max n h k
copy_section-IsSlice (cut_at i) content size from max n h k = elim (dec_le i n) [
  | yes early ↦
      rw (take-take i n (drop from content) early)
        (section-IsSlice content size from max i (omega arith) (omega arith))
  | no late ↦
      rw
        (take_all i (take n (drop from content)) (omega (arith, length-take n (drop from content))))
        (section-IsSlice content size from max n h k)
]

module _ {K : Type 0} {o : Order K} {V : Type 0} (trees : Trees o V) where
  pub read_log_range-IsSlice :
      (w : WriteOutcome) (db : Db trees) (epoch from max : ℕ)
      → IsSlice db.file.content db.wal_size from max
          (read_log_range trees w db epoch (pos from) (pos max)).sent
  unfolding read_log_range read_range
  read_log_range-IsSlice w db epoch from max =
      let nothing = nothing-IsSlice db.file.content db.wal_size from max in
      let n = min_ℕ max (db.wal_size - from) in
      elim (Bool-cases db.is_closed) [
        | inl shut ↦ rw (read_range, shut) nothing
        | inr usable ↦ elim (Bool-cases (db.file_epoch == epoch)) [
          | inr swapped ↦ rw (read_range, usable, swapped) nothing
          | inl current ↦ elim (Bool-cases (ltb db.wal_size from)) [
            | inl behind ↦ rw (read_range, usable, current, behind) nothing
            | inr within ↦ elim (Bool-cases (n == 0)) [
              | inl empty ↦ rw (read_range, usable, current, within, empty) nothing
              | inr some_bytes ↦
                  rw (read_range, usable, current, within, some_bytes)
                    (copy_section-IsSlice w db.file.content db.wal_size from max n (ground arith)
                      (ground (arith, within)))
            ]
          ]
        ]
      ]

  -- A range that was served: the database is open, the epoch is its own, the position lies in the
  -- log, and the bytes are those of the log from there; all of them, where no copy failed.
  pub record IsServed (db : Db trees) (epoch : ℕ) (from max : ℤ) (c : Copied) : Type 0 where
    pub still_open : db.is_closed ≡ false
    pub same_epoch : (db.file_epoch == epoch) ≡ true
    pub from_ℕ : ℕ
    pub max_ℕ : ℕ
    pub from_eq : from ≡ pos from_ℕ
    pub max_eq : max ≡ pos max_ℕ
    pub within : from_ℕ ≤ db.wal_size
    pub is_slice : IsSlice db.file.content db.wal_size from_ℕ max_ℕ c.sent
    pub whole :
        c.failure ≡ none
        → c.sent ≡ take (min_ℕ max_ℕ (db.wal_size - from_ℕ)) (drop from_ℕ db.file.content)

  abbrev pub IsRefused : Copied → Type 0
  IsRefused c = (e : Error) × (c ≡ refused e)

  whole_section :
      (w : WriteOutcome) (content : Bytes) (from n : ℕ)
      → (copy_section w content from n).failure ≡ none
      → (copy_section w content from n).sent ≡ take n (drop from content)
  unfolding copy_section
  whole_section wrote content from n h = refl
  whole_section (cut_at i) content from n h = cc h

  read_range-whole :
      (w : WriteOutcome) (db : Db trees) (epoch from max : ℕ)
      → (read_range trees w db epoch from max).failure ≡ none
      → (read_range trees w db epoch from max).sent
        ≡ take (min_ℕ max (db.wal_size - from)) (drop from db.file.content)
  unfolding read_range
  read_range-whole w db epoch from max h =
      let n = min_ℕ max (db.wal_size - from) in
      elim (Bool-cases db.is_closed) [
        | inl shut ↦ cc (rw (read_range, shut) at h)
        | inr usable ↦ elim (Bool-cases (db.file_epoch == epoch)) [
          | inr swapped ↦ cc (rw (read_range, usable, swapped) at h)
          | inl current ↦ elim (Bool-cases (ltb db.wal_size from)) [
            | inl behind ↦ cc (rw (read_range, usable, current, behind) at h)
            | inr within ↦ elim (Bool-cases (n == 0)) [
              | inl empty ↦
                  let zero_bytes : n ≡ 0 = ground (arith, empty) in
                  rw (read_range, usable, current, within, empty)
                    (sym (ap (λ (m : ℕ). take m (drop from db.file.content)) zero_bytes))
              | inr some_bytes ↦
                  rw (read_range, usable, current, within, some_bytes)
                    (whole_section w db.file.content from n
                      (rw (read_range, usable, current, within, some_bytes) at h))
            ]
          ]
        ]
      ]

  served :
      (w : WriteOutcome) (db : Db trees) (epoch from max : ℕ)
      → IsRefused (read_log_range trees w db epoch (pos from) (pos max))
        ⊎ IsServed db epoch
            (pos from)
            (pos max)
            (read_log_range trees w db epoch (pos from) (pos max))
  unfolding read_log_range read_range
  served w db epoch from max = elim (Bool-cases db.is_closed) [
    | inl shut ↦ inl (closed, rw (read_log_range, read_range, shut) refl)
    | inr usable ↦ elim (Bool-cases (db.file_epoch == epoch)) [
      | inr swapped ↦ inl (epoch_changed, rw (read_log_range, read_range, usable, swapped) refl)
      | inl current ↦ elim (Bool-cases (ltb db.wal_size from)) [
        | inl behind ↦
            inl (bad_argument, rw (read_log_range, read_range, usable, current, behind) refl)
        | inr within ↦ inr (record {
          still_open = usable;
          same_epoch = current;
          from_ℕ = from;
          max_ℕ = max;
          from_eq = refl;
          max_eq = refl;
          within = ground (arith, within);
          is_slice = read_log_range-IsSlice w db epoch from max;
          whole = read_range-whole w db epoch from max;
        })
      ]
    ]
  ]

  -- On every branch, ReadLogRange answers with an error and ships nothing, or the database is open, the
  -- epoch that was asked for is its own, the position and the limit are not negative, the position
  -- lies in the log up to walSize, and what it ships are at most `max` bytes of that log from there:
  -- as many as there are, unless the copy failed.
  pub read_log_range-IsServed :
      (w : WriteOutcome) (db : Db trees) (epoch : ℕ) (from max : ℤ)
      → IsRefused (read_log_range trees w db epoch from max)
        ⊎ IsServed db epoch from max (read_log_range trees w db epoch from max)
  unfolding read_log_range
  read_log_range-IsServed w db epoch (pos from) (pos max) = served w db epoch from max
  read_log_range-IsServed w db epoch (pos from) (negsuc max) = inl (bad_argument, refl)
  read_log_range-IsServed w db epoch (negsuc from) max = inl (bad_argument, refl)
