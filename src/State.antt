-- ===== src/State.antt =====
-- state.go: the primary tree, the deadlines in two mirrored trees, and the secondary indexes.
pub mod Entries
pub mod Reads
pub mod Invariant
pub mod Indexes
pub mod Visible
pub mod Iteration
pub mod LiveLen
pub mod Changes
pub mod Refinement
pub mod Invariants
use btypedb.Prelude.{
  ℕ, ◌-◌, ◌≡◌, Bool, true, false, ◌&&◌, ◌||◌, not, Option, none, some, List, [], ◌∷◌, ◌==◌,
  if◌then◌else◌, map,
}
use btypedb.Prelude.Int.{ℤ, pos, leb_ℤ, ltb_ℤ, ◌-ℤ◌}
use btypedb.Prelude.Order.{Order}
use btypedb.Btype.Contract.{TableLib, MapLib}
use Entries.{ExpEntry, IEntry, exp_order, index_order}
use Prim.Native.String.{String}

-- The trees of btype at the types of the database.
pub record Trees {K : Type 0} (o : Order K) (V : Type 0) : Type 1 where
  pub data_map : MapLib o V
  pub ttl_map : MapLib o ℤ
  pub exp_table : TableLib (exp_order o)
  pub idx_table : (compare : Order (K × V)) → TableLib (index_order o compare)

module _ {K : Type 0} {o : Order K} {V : Type 0} (trees : Trees o V) where
  open trees use {data_map, ttl_map, exp_table, idx_table}

  -- The comparator of an index is a total preorder of pairs; the name is the key in `idx`.
  pub record Index : Type 0 where
    pub compare : Order (K × V)
    pub tree : TableLib.Tree (idx_table compare)

  -- `pairs` is the field `data`.
  pub record DbState : Type 0 where
    pub pairs : MapLib.Tree data_map
    pub ttl : MapLib.Tree ttl_map
    pub exp : TableLib.Tree exp_table
    pub idx : List (String × Index)

  -- `newDBState`
  abbrev pub empty_state : DbState
  empty_state = record { pairs = data_map.new; ttl = ttl_map.new; exp = exp_table.new; idx = [] }

  -- The loops over `s.idx`: one change of the tree of each index.
  abbrev pub index_set : K → V → String × Index → String × Index
  index_set k v (name, ix) =
      (name, record ix { tree = (idx_table ix.compare).set ix.tree (record { k = k; v = v }) })

  abbrev pub index_delete : K → V → String × Index → String × Index
  index_delete k v (name, ix) =
      (name, record ix { tree = (idx_table ix.compare).delete ix.tree (record { k = k; v = v }) })

  abbrev pub indexes_delete : K → Option V → List (String × Index) → List (String × Index)
  indexes_delete k none l = l
  indexes_delete k (some prev) l = map (index_delete k prev) l

  abbrev pub exp_delete :
      K → Option ℤ → MapLib.Tree ttl_map → TableLib.Tree exp_table → TableLib.Tree exp_table
  exp_delete k none ttl exp = exp
  exp_delete k (some old) ttl exp = exp_table.delete exp (record { at = old; key = k })

  -- `set`: a deadline that is not positive means no expiry.
  unfoldable pub set : DbState → K → V → ℤ → DbState
  set s k v deadline =
      let (pairs, prev) = data_map.set s.pairs k v in
      let (ttl, old) = ttl_map.delete s.ttl k in
      let exp = exp_delete k old ttl s.exp in
      let has_deadline = ltb_ℤ (pos 0) deadline in
      record {
        pairs = pairs;
        ttl = if has_deadline then (ttl_map.set ttl k deadline).0 else ttl;
        exp = if has_deadline then exp_table.set exp (record { at = deadline; key = k }) else exp;
        idx = map (index_set k v) (indexes_delete k prev s.idx);
      }

  abbrev delete_present : DbState → K → V → DbState
  delete_present s k prev =
      let (ttl, old) = ttl_map.delete s.ttl k in
      record {
        pairs = (data_map.delete s.pairs k).0;
        ttl = ttl;
        exp = exp_delete k old ttl s.exp;
        idx = map (index_delete k prev) s.idx;
      }

  -- `delete`, with the value that was there.
  unfoldable pub delete : DbState → K → DbState × Option V
  delete s k =
      let (pairs, prev) = data_map.delete s.pairs k in
      elim prev [
        | none ↦ (record s { pairs = pairs }, none)
        | some v ↦ (delete_present s k v, some v)
      ]

  abbrev pub due : ℤ → Option ℤ → Bool
  due now none = false
  due now (some deadline) = leb_ℤ deadline now

  unfoldable pub expired : DbState → K → ℤ → Bool
  expired s k now = if ttl_map.len s.ttl == 0 then false else due now (ttl_map.get s.ttl k)

  abbrev pub hide : Bool → Option V → Option V
  hide gone none = none
  hide gone (some v) = if gone then none else some v

  unfoldable pub get : DbState → K → ℤ → Option V
  get s k now = hide (expired s k now) (data_map.get s.pairs k)

  -- The loop of `liveLen` over the deadlines, earliest first.
  count_down : ℤ → ℤ → List (ExpEntry K) → ℤ
  count_down now n [] = n
  count_down now n (e ∷ es) =
      let rest = count_down now (n -ℤ pos 1) es in if ltb_ℤ now e.at then n else rest

  unfoldable pub live_len : DbState → ℤ → ℤ
  unfolding count_down
  live_len s now = count_down now (pos (data_map.len s.pairs)) (exp_table.items s.exp)
