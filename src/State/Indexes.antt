-- ===== src/State/Indexes.antt =====
-- Each secondary index holds exactly the pairs of the primary tree.
use Prim.Native.String.{String}
use btypedb.Prelude.{
  Bool-cases, ◌≡◌, refl, ap, ◌∙◌, true, false, ◌&&◌, Option, none, some, List, All, All-map,
  All-mono, arith, if◌then◌else◌, Option-cases, inl, inr, ◌⊎◌,
}
use btypedb.Prelude.Int.{ℤ}
use btypedb.Prelude.Order.{Order, IsExact, is_eq, eq_of_is_eq, same}
use btypedb.Btype.Laws.{get-delete, set-prev, item, item-set, item-delete}
use btypedb.State.Entries.{IEntry, index_order}
use btypedb.State.{Trees, Index, DbState, set, delete, index_set, index_delete, indexes_delete}
use btypedb.State.Reads.{val_of, val-set, delete-absent, delete-there}

module _ {K : Type 0} {o : Order K} {V : Type 0} (trees : Trees o V) where
  open trees use {data_map, idx_table}

  -- What the tree of an index has for a pair, when the key has this value.
  abbrev pub entry : Order (K × V) → K → V → Option V → Option (IEntry K V)
  entry compare k v none = none
  entry compare k v (some w) =
      if is_eq (compare.cmp (k, v) (k, w)) then some (record { k = k; v = w }) else none

  abbrev pub Matches : (K → Option V) → String × Index trees → Type 0
  Matches value_of (name, ix) =
      (k : K) (v : V)
      → item (idx_table ix.compare) ix.tree (record { k = k; v = v })
        ≡ entry ix.compare k v (value_of k)

  -- Every index has the entry of each pair that is there, and no other entry.
  abbrev pub IsIndexed : DbState trees → Type 0
  IsIndexed s = All (Matches (val_of trees s)) s.idx

  same_entry :
      (compare : Order (K × V)) (j k : K) (v w : V)
      → same (index_order o compare) (record { k = j; v = v }) (record { k = k; v = w })
        ≡ (is_eq (compare.cmp (j, v) (k, w)) && is_eq (o.cmp j k))
  unfolding index_order
  same_entry compare j k v w = ground arith

  module _ (exact : IsExact o) (k : K) where
    -- Writing the pair (k, w) into an index that had no pair of `k` left.
    pub Matches-set :
        (f g : K → Option V) (w : V)
        → f k ≡ none
        → ((j : K) → g j ≡ (if same o j k then some w else f j))
        → (x : String × Index trees) → Matches f x
        → Matches g (index_set trees k w x)
    Matches-set f g w gone upd (name, ix) m j v =
        let found =
          item-set (idx_table ix.compare) ix.tree (record { k = k; v = w })
            (record { k = j; v = v }) in
        let alike = same_entry ix.compare j k v w in
        elim (Bool-cases (same o j k)) [
          | inl here ↦
              let at_k : j ≡ k = exact j k (eq_of_is_eq (o.cmp j k) here) in
              rw (found, alike) (rw at_k (ground (arith, m k v, upd k, o.cmp_refl k)))
          | inr other ↦ rw (found, alike) (ground (arith, m j v, upd j))
        ]

    -- Removing the pair (k, prev) that the index has.
    Matches-delete :
        (f g : K → Option V) (prev : V)
        → f k ≡ some prev
        → ((j : K) → g j ≡ (if same o j k then none else f j))
        → (x : String × Index trees) → Matches f x
        → Matches g (index_delete trees k prev x)
    Matches-delete f g prev there upd (name, ix) m j v =
        let found =
          item-delete (idx_table ix.compare) ix.tree (record { k = k; v = prev })
            (record { k = j; v = v }) in
        let alike = same_entry ix.compare j k v prev in
        elim (Bool-cases (same o j k)) [
          | inl here ↦
              let at_k : j ≡ k = exact j k (eq_of_is_eq (o.cmp j k) here) in
              rw (found, alike) (rw at_k (ground (arith, m k v, upd k, o.cmp_refl k)))
          | inr other ↦ rw (found, alike) (ground (arith, m j v, upd j))
        ]

    -- The values once `k` is taken out.
    abbrev without : (K → Option V) → K → Option V
    without f j = if same o j k then none else f j

    without_self : (f : K → Option V) → without f k ≡ none
    without_self f = rw (o.cmp_refl k)

    Matches-unchanged :
        (f g : K → Option V)
        → f k ≡ none
        → ((j : K) → g j ≡ without f j)
        → (x : String × Index trees) → Matches f x
        → Matches g x
    Matches-unchanged f g gone upd (name, ix) m j v =
        rw (m j v) (ap (entry ix.compare j v) (same_value (Bool-cases (same o j k))))
      where
        same_value : (same o j k ≡ true) ⊎ (same o j k ≡ false) → f j ≡ g j
        same_value (inl here) =
            let at_k : j ≡ k = exact j k (eq_of_is_eq (o.cmp j k) here) in
            rw (upd j, here) (ap f at_k ∙ gone)
        same_value (inr other) = rw (upd j, other)

    indexes_delete-Matches :
        (f : K → Option V) (l : List (String × Index trees))
        → All (Matches f) l
        → All (Matches (without f)) (indexes_delete trees k (f k) l)
    indexes_delete-Matches f l h = go (f k) refl
      where
        go : (c : Option V) → f k ≡ c → All (Matches (without f)) (indexes_delete trees k c l)
        go none gone =
            All-mono (Matches f) (Matches (without f)) l
              (Matches-unchanged f (without f) gone (λ j. refl)) h
        go (some prev) there =
            All-map (Matches f) (Matches (without f)) (index_delete trees k prev) l
              (Matches-delete f (without f) prev there (λ j. refl)) h

    module _ (s : DbState trees) (h : IsIndexed s) where
      -- `set` keeps every index exact.
      pub set-IsIndexed : (v : V) (d : ℤ) → IsIndexed (set trees s k v d)
      unfolding set
      set-IsIndexed v d =
          let f = val_of trees s in
          All-map (Matches (without f)) (Matches (val_of trees (set trees s k v d)))
            (index_set trees k v) (indexes_delete trees k (data_map.set s.pairs k v).1 s.idx)
            (Matches-set (without f) (val_of trees (set trees s k v d)) v (without_self f)
              (λ j. val-set trees s k v d j ∙ ground arith))
            (rw (set-prev data_map s.pairs k v) (indexes_delete-Matches f s.idx h))

      abbrev after_delete : K → Option V
      after_delete = data_map.get (data_map.delete s.pairs k).0

      -- `delete` keeps every index exact.
      pub delete-IsIndexed : IsIndexed (delete trees s k).0
      delete-IsIndexed = elim (Option-cases (val_of trees s k)) [
        | inl gone ↦ rw (delete-absent trees s k gone) (
            All-mono (Matches (val_of trees s)) (Matches (after_delete)) s.idx
              (Matches-unchanged (val_of trees s) after_delete gone (get-delete data_map s.pairs k))
              h)
        | inr (prev, there) ↦ rw (delete-there trees s k prev there) (
            All-map (Matches (val_of trees s)) (Matches after_delete) (index_delete trees k prev)
              s.idx
              (Matches-delete (val_of trees s) after_delete prev there
                (get-delete data_map s.pairs k))
              h)
      ]
