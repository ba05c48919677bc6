-- ===== src/Db/Index.antt =====
-- index.go: the registration of secondary indexes, and the iterators over them. The map of a state
-- from names to indexes is a list of pairs, whose names are all different.
pub mod Build
pub mod Sorting
pub mod Iterate
use Prim.Native.String.{String, compare}
use text.Mathlib.Text.{◌==◌}
use btypedb.Prelude.{
  Bool, true, false, not, Option, none, some, List, [], ◌∷◌, Result, ok, err, Error, closed,
  bad_argument, index_exists, no_such_index, map, if◌then◌else◌, Ordering,
}
use btypedb.Prelude.Int.{ℤ}
use btypedb.Prelude.Order.{Order}
use btypedb.Btype.Contract.{MapLib, TableLib}
use btypedb.State.Entries.{IEntry}
use btypedb.State.{Trees, Index, DbState, expired}
use btypedb.Db.Handle.{Db}
use btypedb.Tx.{Tx}

-- `slices.Sort`
unfoldable pub insert_name : String → List String → List String
insert_name n [] = n ∷ []
insert_name n (m ∷ l) =
    let rest = insert_name n l in
    elim (compare n m) [
      | Ordering.gt ↦ m ∷ rest
      | Ordering.eq ↦ n ∷ m ∷ l
      | Ordering.lt ↦ n ∷ m ∷ l
    ]

unfoldable pub sort_names : List String → List String
sort_names [] = []
sort_names (n ∷ l) = insert_name n (sort_names l)

module _ {K : Type 0} {o : Order K} {V : Type 0} (trees : Trees o V) where
  open trees use {data_map, idx_table}

  -- `idx[name]` and `delete(idx, name)`
  unfoldable pub idx_get : String → List (String × Index trees) → Option (Index trees)
  idx_get name [] = none
  idx_get name ((n, ix) ∷ l) = if n == name then some ix else idx_get name l

  unfoldable pub idx_delete : String → List (String × Index trees) → List (String × Index trees)
  idx_delete name [] = []
  idx_delete name ((n, ix) ∷ l) =
      let rest = idx_delete name l in if n == name then rest else (n, ix) ∷ rest

  abbrev pub new_index : Order (K × V) → Index trees
  new_index compare = record { compare = compare; tree = (idx_table compare).new }

  -- The scan of `CreateIndex`.
  unfoldable pub fill_index : Index trees → List (K × V) → Index trees
  fill_index ix [] = ix
  fill_index ix ((k, v) ∷ l) =
      fill_index (record ix { tree = (idx_table ix.compare).set ix.tree (record { k = k; v = v }) })
        l

  abbrev pub with_idx : Db trees → List (String × Index trees) → Db trees
  with_idx db idx = record db { state = record db.state { idx = idx } }

  abbrev pub is_there : Option (Index trees) → Bool
  is_there none = false
  is_there (some _) = true

  abbrev register : String → Order (K × V) → Db trees → Result (Unit {0}) × Db trees
  register name compare db =
      if db.is_closed
      then (err closed, db)
      else if is_there (idx_get name db.state.idx)
      then (err index_exists, db)
      else (
        ok tt,
        with_idx db
            ((name, fill_index (new_index compare) (data_map.items db.state.pairs)) ∷ db.state.idx),
      )

  -- `none` is a comparison that is nil.
  unfoldable pub create_index :
      String → Option (Order (K × V)) → Db trees → Result (Unit {0}) × Db trees
  create_index name none db = (err bad_argument, db)
  create_index name (some compare) db =
      if name == "" then (err bad_argument, db) else register name compare db

  unfoldable pub drop_index : String → Db trees → Result (Unit {0}) × Db trees
  drop_index name db =
      if db.is_closed
      then (err closed, db)
      else if is_there (idx_get name db.state.idx)
      then (ok tt, with_idx db (idx_delete name db.state.idx))
      else (err no_such_index, db)

  unfoldable pub indexes : Db trees → List String
  indexes db = sort_names (map (λ x. x.0) db.state.idx)

  -- The loop of `iterIndexTree`.
  unfoldable pub visible_entries : DbState trees → ℤ → List (IEntry K V) → List (K × V)
  visible_entries s now [] = []
  visible_entries s now (e ∷ es) =
      let rest = visible_entries s now es in
      if expired trees s e.k now then rest else (e.k, e.v) ∷ rest

  -- The pivot is there where `pivoted` is set.
  abbrev pub index_seq : (ix : Index trees) → Bool → Option (K × V) → List (IEntry K V)
  index_seq ix true (some (pk, pv)) =
      (idx_table ix.compare).descend ix.tree (record { k = pk; v = pv })
  index_seq ix true none = (idx_table ix.compare).backward ix.tree
  index_seq ix false (some (pk, pv)) =
      (idx_table ix.compare).ascend ix.tree (record { k = pk; v = pv })
  index_seq ix false none = (idx_table ix.compare).items ix.tree

  unfoldable pub iter_index_tree :
      DbState trees → ℤ → Index trees → Bool → Option (K × V) → List (K × V)
  iter_index_tree s now ix desc pivot = visible_entries s now (index_seq ix desc pivot)

  abbrev iter_named :
      DbState trees → ℤ → Option (Index trees) → Bool → Option (K × V) → List (K × V)
  iter_named s now none desc pivot = []
  iter_named s now (some ix) desc pivot = iter_index_tree s now ix desc pivot

  module _ (now : ℤ) (db : Db trees) where
    unfoldable pub db_iter_index : String → Bool → Option (K × V) → List (K × V)
    db_iter_index name desc pivot = iter_named db.state now (idx_get name db.state.idx) desc pivot

    unfoldable pub db_ascend_index : String → List (K × V)
    unfolding db_iter_index
    db_ascend_index name = db_iter_index name false none

    unfoldable pub db_descend_index : String → List (K × V)
    unfolding db_iter_index
    db_descend_index name = db_iter_index name true none

    unfoldable pub db_ascend_index_from : String → K → V → List (K × V)
    unfolding db_iter_index
    db_ascend_index_from name pk pv = db_iter_index name false (some (pk, pv))

    unfoldable pub db_descend_index_from : String → K → V → List (K × V)
    unfolding db_iter_index
    db_descend_index_from name pk pv = db_iter_index name true (some (pk, pv))

  module _ (now : ℤ) (tx : Tx trees) where
    unfoldable pub tx_iter_index : String → Bool → Option (K × V) → List (K × V)
    tx_iter_index name desc pivot =
        if tx.done then [] else iter_named tx.state now (idx_get name tx.state.idx) desc pivot

    unfoldable pub tx_ascend_index : String → List (K × V)
    unfolding tx_iter_index
    tx_ascend_index name = tx_iter_index name false none

    unfoldable pub tx_descend_index : String → List (K × V)
    unfolding tx_iter_index
    tx_descend_index name = tx_iter_index name true none

    unfoldable pub tx_ascend_index_from : String → K → V → List (K × V)
    unfolding tx_iter_index
    tx_ascend_index_from name pk pv = tx_iter_index name false (some (pk, pv))

    unfoldable pub tx_descend_index_from : String → K → V → List (K × V)
    unfolding tx_iter_index
    tx_descend_index_from name pk pv = tx_iter_index name true (some (pk, pv))
