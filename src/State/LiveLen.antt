-- ===== src/State/LiveLen.antt =====
-- `liveLen` counts by the deadlines what the iterators count by the pairs.
mod Keys
use btypedb.Prelude.{
  ℕ, zero, suc, ◌+◌, ◌-◌, ◌≤◌, ◌≡◌, refl, ◌∙◌, sym, ap, Bool, true, false, not, ◌&&◌, ◌||◌, Option,
  none, some, List, [], ◌∷◌, All, All-mono, length, map, arith, Bool-cases, Option-cases, inl, inr,
  if◌then◌else◌, Ordering,
}
use btypedb.Prelude.Int.{ℤ, pos, leb_ℤ, ltb_ℤ, ◌-ℤ◌, compare_ℤ}
use btypedb.Prelude.Order.{
  Order, IsExact, is_eq, same, eq_of_is_eq, compare_ℤ_exact, compare_ℤ_refl,
}
use btypedb.Btype.Contract.{MapLib, TableLib, value, pair_key}
use btypedb.Btype.Sorted.{find, is_some, Above, IsSorted, find_cmp}
use btypedb.Btype.Filtered.{filter, keep_if, find-filter, filter-IsSorted}
use btypedb.Btype.Distinct.{
  mem, IsDistinct, length-IsDistinct, mem-find, sorted-IsDistinct, mem-All, find_self,
}
use btypedb.State.Entries.{ExpEntry, exp_order}
use btypedb.State.{Trees, DbState, live_len, count_down, expired, due}
use btypedb.State.Reads.{val_of, ttl_of, has_exp, is_deadline}
use btypedb.State.Invariant.{IsConsistent}
use btypedb.State.Iteration.{live, unexpired-filter}
use btypedb.State.Visible.{expired-due}
use btypedb.Tx.Ranges.{unexpired}
use Keys.{is_due, entries, entry_key, keys_of_due, gone, gone_keys, same_count}

module _ {A : Type 0} (p : A → Bool) where
  -- What is kept and what is left out.
  length-filter_split :
      (l : List A) → length (filter p l) + length (filter (λ x. not (p x)) l) ≡ length l
  length-filter_split [] = omega arith
  length-filter_split (x ∷ l) = ground (arith, length-filter_split l)

module _ {K : Type 0} (o : Order K) (now : ℤ) where
  -- Behind an entry that is not due no entry is due.
  none_due :
      (x : ExpEntry K) (l : List (ExpEntry K))
      → is_due now x ≡ false
      → Above (exp_order o) (λ e. e) x l
      → filter (is_due now) l ≡ []
  unfolding exp_order
  none_due x [] h a = refl
  none_due x (y ∷ l) h a = ground (arith, h, a.0, none_due x l h a.1)

minus_one : (n : ℕ) → 1 ≤ n → pos n -ℤ pos 1 ≡ pos (n - 1)
unfolding ◌-ℤ◌
minus_one n h = ground arith

module _ {K : Type 0} {o : Order K} {V : Type 0} (trees : Trees o V) (now : ℤ) where
  open trees use {data_map, exp_table}

  count_down-filter :
      (l : List (ExpEntry K)) (n : ℕ)
      → IsSorted (exp_order o) (λ e. e) l
      → length (filter (is_due now) l) ≤ n
      → count_down trees now (pos n) l ≡ pos (n - length (filter (is_due now) l))
  unfolding count_down
  count_down-filter [] n s h = ap pos (omega arith)
  count_down-filter (x ∷ l) n s h = elim (Bool-cases (is_due now x)) [
    | inl due_now ↦
        let fewer : length (filter (is_due now) l) ≤ n - 1 = ground (arith, due_now, h) in
        let one : 1 ≤ n = ground (arith, due_now, h) in
        let not_late : ltb_ℤ now x.at ≡ false = ground (arith, due_now) in
        rw (due_now, not_late, minus_one n one)
          (count_down-filter l (n - 1) s.1 fewer ∙ ap pos (omega arith))
    | inr later ↦
        let late : ltb_ℤ now x.at ≡ true = ground (arith, later) in
        rw (later, late, none_due o now x l later s.0) (ap pos (omega arith))
  ]

  module _ (exact : IsExact o) (s : DbState trees) (c : IsConsistent trees s) where
    length-map : {A B : Type 0} (f : A → B) (l : List A) → length (map f l) ≡ length l
    length-map f [] = refl
    length-map f (x ∷ l) = ap suc (length-map f l)

    -- LiveLen, for an order of keys that tells unequal keys apart and a consistent state.
    pub live_len-length :
        live_len trees s now ≡ pos (length (unexpired trees s now (data_map.items s.pairs)))
    unfolding live_len
    live_len-length =
        let l = data_map.items s.pairs in
        let n = length (filter (is_due now) (entries trees now exact s c)) in
        let split = length-filter_split (live trees s now) l in
        let counts : n + length (unexpired trees s now l) ≡ data_map.len s.pairs = omega (
          arith,
          same_count trees now exact s c,
          length-map (entry_key trees now exact s c)
              (filter (is_due now) (entries trees now exact s c)),
          length-map pair_key (filter (gone trees now exact s c) l),
          split,
          data_map.len-eq s.pairs,
          ap length (unexpired-filter trees s now l),
        ) in
        count_down-filter (entries trees now exact s c) (data_map.len s.pairs)
          (exp_table.sorted s.exp) (omega arith)
        ∙ ap pos (omega arith)
