-- ===== src/State/Changes.antt =====
-- The changes of a state, as data: what a record of the log can do.
use btypedb.Prelude.{List, [], ◌∷◌}
use btypedb.Prelude.Int.{ℤ}
use btypedb.Prelude.Order.{Order}
use btypedb.State.{Trees, DbState, set, delete}

pub data Change (K V : Type 0) : Type 0 where
  sets : K → V → ℤ → Change K V
  deletes : K → Change K V
  nothing : Change K V

module _ {K : Type 0} {o : Order K} {V : Type 0} (trees : Trees o V) where
  abbrev pub changed : DbState trees → Change K V → DbState trees
  changed s (Change.sets k v d) = set trees s k v d
  changed s (Change.deletes k) = (delete trees s k).0
  changed s Change.nothing = s

  abbrev pub run : DbState trees → List (Change K V) → DbState trees
  run s [] = s
  run s (c ∷ cs) = run (changed s c) cs
