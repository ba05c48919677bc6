-- ===== src/State/Invariants.antt =====
-- What every sequence of changes keeps.
use btypedb.Prelude.{List, [], ◌∷◌}
use btypedb.Prelude.Order.{Order, IsExact}
use btypedb.State.{Trees, DbState}
use btypedb.State.Changes.{Change, changed, run}
use btypedb.State.Invariant.{IsConsistent, set-IsConsistent, delete-IsConsistent}
use btypedb.State.Indexes.{IsIndexed, set-IsIndexed, delete-IsIndexed}

module _ {K : Type 0} {o : Order K} {V : Type 0} (trees : Trees o V) (exact : IsExact o) where
  changed-IsConsistent :
      (c : Change K V) (s : DbState trees)
      → IsConsistent trees s
      → IsConsistent trees (changed trees s c)
  changed-IsConsistent (Change.sets k v d) s h = set-IsConsistent trees exact s k h v d
  changed-IsConsistent (Change.deletes k) s h = delete-IsConsistent trees exact s k h
  changed-IsConsistent Change.nothing s h = h

  -- Any sequence of sets and deletes keeps the trees consistent: the deadlines are mirrored in both
  -- trees, positive, and belong to keys that are there, if the order of keys tells unequal keys
  -- apart.
  pub run-IsConsistent :
      (cs : List (Change K V)) (s : DbState trees)
      → IsConsistent trees s
      → IsConsistent trees (run trees s cs)
  run-IsConsistent [] s h = h
  run-IsConsistent (c ∷ cs) s h =
      run-IsConsistent cs (changed trees s c) (changed-IsConsistent c s h)

  changed-IsIndexed :
      (c : Change K V) (s : DbState trees) → IsIndexed trees s → IsIndexed trees (changed trees s c)
  changed-IsIndexed (Change.sets k v d) s h = set-IsIndexed trees exact k s h v d
  changed-IsIndexed (Change.deletes k) s h = delete-IsIndexed trees exact k s h
  changed-IsIndexed Change.nothing s h = h

  -- Any sequence of sets and deletes keeps every secondary index exact: it has an entry for each pair
  -- that is there, and no other entry, if the order of keys tells unequal keys apart.
  pub run-IsIndexed :
      (cs : List (Change K V)) (s : DbState trees)
      → IsIndexed trees s
      → IsIndexed trees (run trees s cs)
  run-IsIndexed [] s h = h
  run-IsIndexed (c ∷ cs) s h = run-IsIndexed cs (changed trees s c) (changed-IsIndexed c s h)
