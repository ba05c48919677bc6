-- ===== src/Db/Iterators.antt =====
-- The iterators of db.go against its `Get`.
use btypedb.Prelude.{◌≡◌, length}
use btypedb.Prelude.Int.{ℤ, pos}
use btypedb.Prelude.Order.{Order, IsExact}
use btypedb.Btype.Contract.{value, pair_key}
use btypedb.Btype.Sorted.{find, IsSorted}
use btypedb.State.{Trees, get}
use btypedb.State.Iteration.{unexpired-IsSorted, find-unexpired-hide}
use btypedb.Db.Handle.{Db}
use btypedb.State.Invariant.{IsConsistent}
use btypedb.State.LiveLen.{live_len-length}
use btypedb.Db.Reads.{db_all, db_get, db_live_len}

module _ {K : Type 0} {o : Order K} {V : Type 0} (trees : Trees o V) where
  open trees use {data_map}

  -- For an order of keys that tells unequal keys apart, All yields its pairs in ascending order of
  -- the keys, each key once, and it yields a pair for a key exactly where Get shows a value, with
  -- that value.
  pub db_all-db_get :
      (exact : IsExact o) (now : ℤ) (db : Db trees)
      → IsSorted o pair_key (db_all trees now db)
        × ((k : K) → value (find o pair_key k (db_all trees now db)) ≡ db_get trees now db k)
  unfolding db_all db_get get
  db_all-db_get exact now db = (
    unexpired-IsSorted trees db.state now o pair_key (data_map.items db.state.pairs)
        (data_map.sorted db.state.pairs),
    λ k. rw (data_map.get-eq db.state.pairs k) (
        find-unexpired-hide trees db.state now exact k (data_map.items db.state.pairs)
          (data_map.sorted db.state.pairs)),
  )

  -- LiveLen, which counts the deadlines that have come, is the number of pairs that All yields, for a
  -- state whose trees are consistent and an order of keys that tells unequal keys apart.
  pub db_live_len-db_all :
      (exact : IsExact o) (now : ℤ) (db : Db trees)
      → IsConsistent trees db.state
      → db_live_len trees now db ≡ pos (length (db_all trees now db))
  unfolding db_live_len db_all
  db_live_len-db_all exact now db c = live_len-length trees now exact db.state c
