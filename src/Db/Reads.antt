-- ===== src/Db/Reads.antt =====
-- The reads of db.go: each looks at the state under the read lock. A sequence is the list of what it
-- yields to a loop that does not stop.
use btypedb.Prelude.{ℕ, Bool, true, false, Option, none, some, List, map}
use btypedb.Prelude.Int.{ℤ}
use btypedb.Prelude.Order.{Order}
use btypedb.State.{Trees, get, live_len}
use btypedb.Tx.Ranges.{unexpired, remaining}
use btypedb.Db.Handle.{Db}

module _ {K : Type 0} {o : Order K} {V : Type 0} (trees : Trees o V) (now : ℤ) (db : Db trees) where
  open trees use {data_map, ttl_map}

  unfoldable pub db_ttl : K → Option ℤ
  db_ttl key = remaining trees now (ttl_map.get db.state.ttl key)

  unfoldable pub db_get : K → Option V
  db_get key = get trees db.state key now

  unfoldable pub db_contains : K → Bool
  db_contains key = elim (db_get key) [ none ↦ false | some _ ↦ true ]

  unfoldable pub db_len : ℕ
  db_len = data_map.len db.state.pairs

  unfoldable pub db_live_len : ℤ
  db_live_len = live_len trees db.state now

  unfoldable pub db_all : List (K × V)
  db_all = unexpired trees db.state now (data_map.items db.state.pairs)

  unfoldable pub db_keys : List K
  db_keys = map (λ p. p.0) (unexpired trees db.state now (data_map.items db.state.pairs))

  unfoldable pub db_values : List V
  db_values = map (λ p. p.1) (unexpired trees db.state now (data_map.items db.state.pairs))

  unfoldable pub db_ascend : K → List (K × V)
  db_ascend from = unexpired trees db.state now (data_map.ascend db.state.pairs from)

  unfoldable pub db_backward : List (K × V)
  db_backward = unexpired trees db.state now (data_map.backward db.state.pairs)

  unfoldable pub db_descend : K → List (K × V)
  db_descend from = unexpired trees db.state now (data_map.descend db.state.pairs from)
