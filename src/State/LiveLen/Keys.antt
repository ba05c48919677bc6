-- ===== src/State/LiveLen/Keys.antt =====
-- The keys of the deadlines that have come are the keys of the pairs that are gone.
use btypedb.Prelude.{
  ◌≡◌, refl, ◌∙◌, sym, ap, Bool, true, false, not, ◌&&◌, Option, none, some, List, [], ◌∷◌, All,
  All-mono, length, map, arith, Bool-cases, Option-cases, inl, inr, Ordering,
}
use btypedb.Prelude.Int.{ℤ, leb_ℤ}
use btypedb.Prelude.Order.{Order, IsExact, same, eq_of_is_eq, compare_ℤ_exact, compare_ℤ_refl}
use btypedb.Btype.Contract.{value, pair_key}
use btypedb.Btype.Sorted.{find, is_some, Above, IsSorted, find_cmp}
use btypedb.Btype.Filtered.{filter, keep_if, find-filter, filter-IsSorted}
use btypedb.Btype.Distinct.{
  mem, IsDistinct, length-IsDistinct, mem-find, sorted-IsDistinct, mem-All, find_self,
}
use btypedb.State.Entries.{ExpEntry, exp_order}
use btypedb.State.{Trees, DbState, due}
use btypedb.State.Reads.{val_of, ttl_of, has_exp, is_deadline}
use btypedb.State.Invariant.{IsConsistent}
use btypedb.State.Iteration.{live}
use btypedb.State.Visible.{expired-due}

module _ {A : Type 0} (p : A → Bool) where
  filter-All : (P : A → Type 0) (l : List A) → All P l → All P (filter p l)
  filter-All P [] h = tt
  filter-All P (x ∷ l) h = elim (Bool-cases (p x)) [
    | inl stays ↦ rw stays (h.0, filter-All P l h.1)
    | inr goes ↦ rw goes (filter-All P l h.1)
  ]

abbrev pub is_due : {K : Type 0} → ℤ → ExpEntry K → Bool
is_due now e = leb_ℤ e.at now

module _ {K : Type 0} {o : Order K} {V : Type 0} (trees : Trees o V) (now : ℤ) where
  open trees use {data_map, ttl_map, exp_table}

  module _ (exact : IsExact o) (s : DbState trees) (c : IsConsistent trees s) where
    abbrev pub entries : List (ExpEntry K)
    entries = exp_table.items s.exp

    abbrev pub entry_key : ExpEntry K → K
    entry_key e = e.key

    abbrev pub keys_of_due : List K
    keys_of_due = map entry_key (filter (is_due now) entries)

    abbrev pub gone : K × V → Bool
    gone p = not (live trees s now p)

    abbrev pub gone_keys : List K
    gone_keys = map pair_key (filter gone (data_map.items s.pairs))

    gone_keys-IsDistinct : IsDistinct o gone_keys
    gone_keys-IsDistinct =
        sorted-IsDistinct o pair_key (filter gone (data_map.items s.pairs))
          (filter-IsSorted o pair_key gone (data_map.items s.pairs) (data_map.sorted s.pairs))

    -- A key is gone where it has a value and its deadline has come.
    mem-gone_keys :
        (k : K)
        → mem o k gone_keys ≡ (is_some (val_of trees s k) && due trees now (ttl_of trees s k))
    mem-gone_keys k =
        let l = data_map.items s.pairs in
        mem-find o pair_key k (filter gone l)
          (filter-IsSorted o pair_key gone l (data_map.sorted s.pairs))
        ∙ ap is_some (find-filter o pair_key gone k l (data_map.sorted s.pairs))
        ∙ kept (find o pair_key k l) (λ j v e. exact k j (find_cmp o pair_key k l (j, v) e))
        ∙ ap (λ x. is_some x && due trees now (ttl_of trees s k)) (sym (data_map.get-eq s.pairs k))
      where
        kept :
            (x : Option (K × V))
            → ((j : K) (v : V) → x ≡ some (j, v) → k ≡ j)
            → is_some (keep_if gone x) ≡ (is_some (value x) && due trees now (ttl_of trees s k))
        kept none at = refl
        kept (some (j, v)) at = rw (← at j v refl) (ground (arith, expired-due trees s k now))

    abbrev IsTtl : ExpEntry K → Type 0
    IsTtl e = ttl_of trees s e.key ≡ some e.at

    -- Every entry stands for the deadline of its key.
    All-IsTtl : All IsTtl entries
    All-IsTtl =
        All-mono (λ e. find (exp_order o) (λ x. x) e entries ≡ some e) IsTtl entries
          (λ e f. is_ttl e.at (ttl_of trees s e.key) (sym (c.mirror e.key e.at) ∙ ap is_some f))
          (find_self (exp_order o) (λ x. x) entries (exp_table.sorted s.exp))
      where
        is_ttl : (at : ℤ) (x : Option ℤ) → is_deadline at x ≡ true → x ≡ some at
        is_ttl at none h = ground (arith, h)
        is_ttl at (some d) h = ap some (sym (compare_ℤ_exact at d (eq_of_is_eq _ h)))

    abbrev IsAfter : ExpEntry K → ExpEntry K → Type 0
    IsAfter x e = (exp_order o).cmp x e ≡ Ordering.lt

    -- Two entries of one key would be the same entry.
    key_once :
        (x : ExpEntry K) (l : List (ExpEntry K))
        → IsTtl x
        → All IsTtl l
        → Above (exp_order o) (λ e. e) x l
        → mem o x.key (map entry_key l) ≡ false
    unfolding exp_order
    key_once x [] t h a = refl
    key_once x (e ∷ l) t h a = elim (Bool-cases (same o x.key e.key)) [
      | inr other ↦ rw other (key_once x l t h.1 a.1)
      | inl here ↦
          let at_key = exact x.key e.key (eq_of_is_eq (o.cmp x.key e.key) here) in
          let alike : x.at ≡ e.at = cc (t, h.0, ap (ttl_of trees s) at_key) in
          absurd (ground (arith, a.0, here, alike, compare_ℤ_refl x.at))
    ]

    keys-IsDistinct :
        (l : List (ExpEntry K))
        → IsSorted (exp_order o) (λ e. e) l
        → All IsTtl l
        → IsDistinct o (map entry_key l)
    keys-IsDistinct [] h t = tt
    keys-IsDistinct (x ∷ l) h t = (key_once x l t.0 t.1 h.0, keys-IsDistinct l h.1 t.1)

    keys_of_due-IsDistinct : IsDistinct o keys_of_due
    keys_of_due-IsDistinct =
        keys-IsDistinct (filter (is_due now) entries)
          (filter-IsSorted (exp_order o) (λ e. e) (is_due now) entries (exp_table.sorted s.exp))
          (filter-All (is_due now) IsTtl entries All-IsTtl)

    All-is_due : (l : List (ExpEntry K)) → All (λ e. is_due now e ≡ true) (filter (is_due now) l)
    All-is_due [] = tt
    All-is_due (x ∷ l) = elim (Bool-cases (is_due now x)) [
      | inl yes_due ↦ rw yes_due (yes_due, All-is_due l)
      | inr not_due ↦ rw not_due (All-is_due l)
    ]

    abbrev IsDueTtl : ExpEntry K → Type 0
    IsDueTtl e = IsTtl e × (is_due now e ≡ true)

    both_All :
        (l : List (ExpEntry K)) → All IsTtl l → All (λ e. is_due now e ≡ true) l → All IsDueTtl l
    both_All [] h d = tt
    both_All (x ∷ l) h d = ((h.0, d.0), both_All l h.1 d.1)

    due_gone : (k : K) → mem o k keys_of_due ≡ true → mem o k gone_keys ≡ true
    due_gone k m =
        let facts =
          both_All (filter (is_due now) entries) (filter-All (is_due now) IsTtl entries All-IsTtl)
            (All-is_due entries) in
        let (e, (t, d), at_key) = mem-All o entry_key IsDueTtl k _ facts m in
        let here : ttl_of trees s k ≡ some e.at = ap (ttl_of trees s) (exact k e.key at_key) ∙ t in
        mem-gone_keys k ∙ rw (here, c.covered k e.at here, d)

    find-mem :
        (q : ExpEntry K) (l : List (ExpEntry K))
        → is_some (find (exp_order o) (λ e. e) q l) ≡ true
        → mem o q.key (map entry_key l) ≡ true
    unfolding find exp_order
    find-mem q [] h = ground (arith, h)
    find-mem q (x ∷ l) h = ground (arith, h, find-mem q l)

    -- An entry that compares equal has the same deadline.
    same_at : (q e : ExpEntry K) → (exp_order o).cmp q e ≡ Ordering.eq → q.at ≡ e.at
    unfolding exp_order
    same_at q e h = compare_ℤ_exact q.at e.at (ground (arith, h))

    due-find :
        (q : ExpEntry K)
        → is_due now q ≡ true
        → is_some (find (exp_order o) (λ e. e) q entries) ≡ true
        → mem o q.key keys_of_due ≡ true
    due-find q d h = find-mem q (filter (is_due now) entries) (
        ap is_some
          (find-filter (exp_order o) (λ e. e) (is_due now) q entries (exp_table.sorted s.exp))
        ∙ kept (find (exp_order o) (λ e. e) q entries)
            (λ e f. same_at q e (find_cmp (exp_order o) (λ x. x) q entries e f)) h)
      where
        kept :
            (x : Option (ExpEntry K))
            → ((e : ExpEntry K) → x ≡ some e → q.at ≡ e.at)
            → is_some x ≡ true
            → is_some (keep_if (is_due now) x) ≡ true
        kept none at here = here
        kept (some e) at here = ground (arith, d, at e refl)

    gone_due : (k : K) → mem o k gone_keys ≡ true → mem o k keys_of_due ≡ true
    gone_due k m =
        let both = sym (mem-gone_keys k) ∙ m in
        elim (Option-cases (ttl_of trees s k)) [
          | inl free ↦ absurd (ground (arith, rw free at both))
          | inr (d, t) ↦
              let mirrored : has_exp trees s k d ≡ true = c.mirror k d ∙ rw (t, compare_ℤ_refl d) in
              due-find (record { at = d; key = k }) (ground (arith, rw t at both)) mirrored
        ]

    pub same_count : length keys_of_due ≡ length gone_keys
    same_count =
        let le = length-IsDistinct o keys_of_due gone_keys keys_of_due-IsDistinct due_gone in
        let ge = length-IsDistinct o gone_keys keys_of_due gone_keys-IsDistinct gone_due in
        omega arith
