-- ===== src/Db/Index/Build.antt =====
-- `CreateIndex` builds an index that is exact, and `DropIndex` leaves the others exact.
use Prim.Native.String.{String}
use text.Mathlib.Text.{◌==◌}
use btypedb.Prelude.{
  ◌≡◌, refl, ap, ◌∙◌, Option, none, some, List, [], ◌∷◌, All, Bool-cases, inl, inr, if◌then◌else◌,
  arith,
}
use btypedb.Prelude.Order.{Order, IsExact, same}
use btypedb.Btype.Contract.{value, pair_key}
use btypedb.Btype.Laws.{item-new}
use btypedb.Btype.Sorted.{find, Above, IsSorted, find-Above, Above-trans, Above-cong}
use btypedb.State.{Trees, Index, DbState, index_set}
use btypedb.State.Reads.{val_of}
use btypedb.State.Indexes.{Matches, Matches-set, IsIndexed, entry}
use btypedb.Db.Handle.{Db}
use btypedb.Db.Index.{is_there, idx_get, idx_delete, new_index, fill_index, create_index}

module _ {K : Type 0} {o : Order K} {V : Type 0} (trees : Trees o V) where
  open trees use {data_map, idx_table}

  -- The values of some keys, over those of the others.
  abbrev over : List (K × V) → (K → Option V) → K → Option V
  over l f j = elim (value (find o pair_key j l)) [ none ↦ f j | some v ↦ some v ]

  Matches-same :
      (f g : K → Option V)
      → ((j : K) → f j ≡ g j)
      → (x : String × Index trees) → Matches trees f x
      → Matches trees g x
  Matches-same f g h (name, ix) m j v = m j v ∙ ap (entry trees ix.compare j v) (h j)

  abbrev and_one : K → V → (K → Option V) → K → Option V
  and_one k w f j = if same o j k then some w else f j

  still_new :
      (k : K) (w : V) (f : K → Option V) (l : List (K × V))
      → Above o pair_key k l
      → All (λ p. f p.0 ≡ none) l
      → All (λ p. and_one k w f p.0 ≡ none) l
  still_new k w f [] a new = tt
  still_new k w f ((j, v) ∷ l) a new =
      (ground (arith, o.cmp_flip k j, a.0, new.0), still_new k w f l a.1 new.1)

  over_one :
      (k : K) (w : V) (f : K → Option V) (l : List (K × V)) (j : K)
      → Above o pair_key k l
      → over l (and_one k w f) j ≡ over ((k, w) ∷ l) f j
  unfolding find
  over_one k w f l j a = ground (
    arith,
    find-Above o pair_key j l,
    Above-trans o pair_key j k l,
    Above-cong o pair_key j k l,
    a,
  )

  -- The pairs of a sorted sequence, written into an index that had none of their keys.
  fill_index-Matches :
      (exact : IsExact o) (name : String) (l : List (K × V)) (f : K → Option V) (ix : Index trees)
      → IsSorted o pair_key l
      → All (λ p. f p.0 ≡ none) l
      → Matches trees f (name, ix)
      → Matches trees (over l f) (name, fill_index trees ix l)
  unfolding fill_index find
  fill_index-Matches exact name [] f ix s new m = m
  fill_index-Matches exact name ((k, w) ∷ l) f ix s new m =
      let added = Matches-set trees exact k f (and_one k w f) w new.0 (λ j. refl) (name, ix) m in
      let ih =
        fill_index-Matches exact name l (and_one k w f) (index_set trees k w (name, ix)).1 s.1
          (still_new k w f l s.0 new.1) added in
      Matches-same (over l (and_one k w f)) (over ((k, w) ∷ l) f) (λ j. over_one k w f l j s.0)
        (name, fill_index trees ix ((k, w) ∷ l)) ih

  module _ (exact : IsExact o) (s : DbState trees) where
    abbrev built : Order (K × V) → Index trees
    built compare = fill_index trees (new_index trees compare) (data_map.items s.pairs)

    abbrev nothing : K → Option V
    nothing k = none

    All-nothing : (l : List (K × V)) → All (λ p. nothing p.0 ≡ none) l
    All-nothing [] = tt
    All-nothing (x ∷ l) = (refl, All-nothing l)

    empty-Matches :
        (name : String) (compare : Order (K × V))
        → Matches trees nothing (name, new_index trees compare)
    empty-Matches name compare k v = item-new (idx_table compare) (record { k = k; v = v })

    over-items : (k : K) → over (data_map.items s.pairs) nothing k ≡ val_of trees s k
    over-items k =
        rw (data_map.get-eq s.pairs k) (only (value (find o pair_key k (data_map.items s.pairs))))
      where
        only : (c : Option V) → elim c [ none ↦ none | some v ↦ some v ] ≡ c
        only none = refl
        only (some v) = refl

    built-Matches :
        (name : String) (compare : Order (K × V))
        → Matches trees (val_of trees s) (name, built compare)
    built-Matches name compare =
        let l = data_map.items s.pairs in
        Matches-same (over l nothing) (val_of trees s) over-items (name, built compare)
          (fill_index-Matches exact name l nothing (new_index trees compare)
            (data_map.sorted s.pairs) (All-nothing l) (empty-Matches name compare))

  -- CreateIndex, on every branch, leaves every index of the database exact: it has an entry for each
  -- pair of the primary tree, and no other entry, if this held before and the order of keys tells
  -- unequal keys apart.
  pub create_index-IsIndexed :
      (exact : IsExact o) (name : String) (compare : Option (Order (K × V))) (db : Db trees)
      → IsIndexed trees db.state
      → IsIndexed trees (create_index trees name compare db).1.state
  unfolding create_index
  create_index-IsIndexed exact name none db h = h
  create_index-IsIndexed exact name (some compare) db h = elim (Bool-cases (name == "")) [
    | inl empty ↦ rw empty h
    | inr named ↦ rw named (elim (Bool-cases db.is_closed) [
      | inl shut ↦ rw shut h
      | inr usable ↦
          rw usable (elim (Bool-cases (is_there trees (idx_get trees name db.state.idx))) [
            | inl known ↦ rw known h
            | inr new ↦ rw new (built-Matches exact db.state name compare, h)
          ])
    ])
  ]

  idx_delete-All :
      (P : String × Index trees → Type 0) (name : String) (l : List (String × Index trees))
      → All P l
      → All P (idx_delete trees name l)
  unfolding idx_delete
  idx_delete-All P name [] h = tt
  idx_delete-All P name ((n, ix) ∷ l) h = elim (Bool-cases (n == name)) [
    | inl this ↦ rw this (idx_delete-All P name l h.1)
    | inr other ↦ rw other (h.0, idx_delete-All P name l h.1)
  ]
