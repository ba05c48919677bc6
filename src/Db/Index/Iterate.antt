-- ===== src/Db/Index/Iterate.antt =====
-- The iterators over an index, against what the primary tree shows.
use Prim.Native.String.{String}
use text.Mathlib.Text.{◌==◌}
use btypedb.Prelude.{
  ◌≡◌, subst, refl, Option, none, some, List, [], ◌∷◌, All, Bool-cases, inl, inr, if◌then◌else◌,
  arith, map,
}
use btypedb.Prelude.Int.{ℤ}
use btypedb.Prelude.Order.{Order, is_eq}
use btypedb.Btype.Contract.{TableLib}
use btypedb.Btype.Sorted.{find, Above, IsSorted}
use btypedb.Btype.Filtered.{keep_if}
use btypedb.State.Entries.{IEntry, index_order}
use btypedb.State.{Trees, Index, DbState, expired, get, hide}
use btypedb.State.Reads.{val_of}
use btypedb.State.Indexes.{Matches, IsIndexed, entry}
use btypedb.State.Iteration.{live, unexpired-IsSorted, find-unexpired}
use btypedb.Tx.Ranges.{unexpired}
use btypedb.Db.Handle.{Db}
use btypedb.Db.Reads.{db_get}
use btypedb.Db.Index.{idx_get, visible_entries, iter_index_tree, db_iter_index, db_ascend_index}

abbrev pub to_entry : {K V : Type 0} → K × V → IEntry K V
to_entry (k, v) = record { k = k; v = v }

abbrev of_entry : {K V : Type 0} → IEntry K V → K × V
of_entry e = (e.k, e.v)

module _ {K V : Type 0} (p : Order (IEntry K V)) where
  abbrev pairs_of : List (IEntry K V) → List (K × V)
  pairs_of l = map of_entry l

  abbrev found : Option (IEntry K V) → Option (K × V)
  found none = none
  found (some e) = some (of_entry e)

  map-Above :
      (e : IEntry K V) (l : List (IEntry K V))
      → Above p (λ a. a) e l
      → Above p to_entry e (pairs_of l)
  map-Above e [] a = tt
  map-Above e (x ∷ l) a = (a.0, map-Above e l a.1)

  map-IsSorted : (l : List (IEntry K V)) → IsSorted p (λ a. a) l → IsSorted p to_entry (pairs_of l)
  map-IsSorted [] s = tt
  map-IsSorted (x ∷ l) s = (map-Above x l s.0, map-IsSorted l s.1)

  find-map :
      (e : IEntry K V) (l : List (IEntry K V))
      → find p to_entry e (pairs_of l) ≡ found (find p (λ a. a) e l)
  unfolding find
  find-map e [] = refl
  find-map e (x ∷ l) = ground (arith, find-map e l)

module _ {K : Type 0} {o : Order K} {V : Type 0} (trees : Trees o V) (now : ℤ) where
  open trees use {data_map, idx_table}

  visible_entries-unexpired :
      (s : DbState trees) (l : List (IEntry K V))
      → visible_entries trees s now l ≡ unexpired trees s now (map of_entry l)
  unfolding visible_entries unexpired
  visible_entries-unexpired s [] = refl
  visible_entries-unexpired s (e ∷ l) = ground (arith, visible_entries-unexpired s l)

  -- What an index shows of a pair: the pair of the key that compares equal to it, where `get` shows
  -- one.
  abbrev pub shown_pair : Order (K × V) → K → V → Option V → Option (K × V)
  shown_pair compare k v none = none
  shown_pair compare k v (some w) = if is_eq (compare.cmp (k, v) (k, w)) then some (k, w) else none

  keep_if-entry :
      (s : DbState trees) (compare : Order (K × V)) (k : K) (v : V) (c : Option V)
      → keep_if (live trees s now) (found (index_order o compare) (entry trees compare k v c))
        ≡ shown_pair compare k v (hide trees (expired trees s k now) c)
  keep_if-entry s compare k v none = refl
  keep_if-entry s compare k v (some w) = ground arith

  idx_get-Matches :
      (P : K → Option V) (name : String) (ix : Index trees) (l : List (String × Index trees))
      → All (Matches trees P) l
      → idx_get trees name l ≡ some ix
      → Matches trees P (name, ix)
  unfolding idx_get
  idx_get-Matches P name ix [] h e = absurd (ground (arith, e))
  idx_get-Matches P name ix ((n, jx) ∷ l) h e = elim (Bool-cases (n == name)) [
    | inl this ↦
        let same_index : jx ≡ ix = cc (rw this at e) in
        subst (λ x. Matches trees P (name, x)) same_index h.0
    | inr other ↦ idx_get-Matches P name ix l h.1 (rw other at e)
  ]

  -- AscendIndex of an index that is exact yields its pairs in the order of the index, each pair
  -- once, and exactly the pairs that Get shows: it yields, at the place of (k, v), the pair of k with
  -- the value that Get shows for k, where the index holds this value equal to v.
  pub db_ascend_index-db_get :
      (db : Db trees) (name : String) (ix : Index trees)
      → IsIndexed trees db.state
      → idx_get trees name db.state.idx ≡ some ix
      → IsSorted (index_order o ix.compare) to_entry (db_ascend_index trees now db name)
        × ((k : K) (v : V)
            → find
                (index_order o ix.compare)
                to_entry
                (record { k = k; v = v })
                (db_ascend_index trees now db name)
              ≡ shown_pair ix.compare k v (db_get trees now db k))
  unfolding db_ascend_index db_iter_index iter_index_tree db_get get
  db_ascend_index-db_get db name ix h e =
      let p = index_order o ix.compare in
      let l = TableLib.items (idx_table ix.compare) ix.tree in
      let sorted = map-IsSorted p l ((idx_table ix.compare).sorted ix.tree) in
      rw (e, visible_entries-unexpired db.state l)
        (
          unexpired-IsSorted trees db.state now p to_entry (map of_entry l) sorted,
          λ k v.
              rw
                (
                  find-unexpired trees db.state now p to_entry (record { k = k; v = v })
                      (map of_entry l) sorted,
                  find-map p (record { k = k; v = v }) l,
                  idx_get-Matches (val_of trees db.state) name ix db.state.idx h e k v,
                )
                (keep_if-entry db.state ix.compare k v (val_of trees db.state k)),
        )
