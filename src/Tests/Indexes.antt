-- ===== src/Tests/Indexes.antt =====
-- The theorems on the reads and on the secondary indexes at concrete inputs.
use btypedb.Prelude.{ℕ, ◌≡◌, refl, some, List, [], ◌∷◌, ok, length}
use btypedb.Prelude.Int.{pos}
use btypedb.Prelude.Order.{Order, ℕ_order, on}
use btypedb.Bytes.{Bytes}
use btypedb.Btype.Contract.{value, pair_key}
use btypedb.Btype.Sorted.{find, place, IsSorted}
use btypedb.State.{DbState, Index, empty_state, set, get}
use btypedb.State.Entries.{index_order}
use btypedb.State.Invariant.{IsConsistent, empty_state-IsConsistent, set-IsConsistent}
use btypedb.State.Indexes.{IsIndexed}
use btypedb.State.Changes.{Change, run}
use btypedb.State.Refinement.{run-get, spec_run, spec_shown, nowhere}
use btypedb.Db.Handle.{Db}
use btypedb.Db.Reads.{db_all, db_get, db_live_len}
use btypedb.Db.Iterators.{db_all-db_get, db_live_len-db_all}
use btypedb.Db.Index.{create_index, new_index, fill_index, idx_get, db_ascend_index}
use btypedb.Db.Index.Build.{create_index-IsIndexed}
use btypedb.Db.Index.Iterate.{to_entry, shown_pair, db_ascend_index-db_get}
use btypedb.Tests.Setup.{trees, new_db, ℕ_order-IsExact}

-- The keys 4, until the moment 100, and 2.
abbrev four_state : DbState trees
four_state = set trees (empty_state trees) 4 (7 ∷ []) (pos 100)

abbrev two_keys : Db trees
two_keys = record new_db { state = set trees four_state 2 (8 ∷ 9 ∷ []) (pos 0) }

two_keys-IsConsistent : IsConsistent trees two_keys.state
two_keys-IsConsistent =
    set-IsConsistent trees ℕ_order-IsExact four_state 2
      (set-IsConsistent trees ℕ_order-IsExact (empty_state trees) 4 (empty_state-IsConsistent trees)
        (7 ∷ []) (pos 100))
      (8 ∷ 9 ∷ []) (pos 0)

db_all-db_get_example :
    IsSorted ℕ_order pair_key (db_all trees (pos 200) two_keys)
    × ((k : ℕ)
        → value (find ℕ_order pair_key k (db_all trees (pos 200) two_keys))
          ≡ db_get trees (pos 200) two_keys k)
db_all-db_get_example = db_all-db_get trees ℕ_order-IsExact (pos 200) two_keys

db_live_len-db_all_example :
    db_live_len trees (pos 200) two_keys ≡ pos (length (db_all trees (pos 200) two_keys))
db_live_len-db_all_example =
    db_live_len-db_all trees ℕ_order-IsExact (pos 200) two_keys two_keys-IsConsistent

abbrev changes : List (Change ℕ Bytes)
changes = Change.sets 4 (7 ∷ []) (pos 100) ∷ Change.deletes 2 ∷ Change.sets 2 (8 ∷ []) (pos 0) ∷ []

run-get_example :
    get trees (run trees (empty_state trees) changes) 4 (pos 50)
    ≡ spec_shown (pos 50) (spec_run ℕ_order nowhere changes 4)
run-get_example = run-get trees changes 4 (pos 50)

abbrev by_length : Order (ℕ × Bytes)
by_length = on (λ p. length p.1) ℕ_order

abbrev with_index : Db trees
with_index = (create_index trees "length" (some by_length) two_keys).1

create_index-IsIndexed_example : IsIndexed trees with_index.state
unfolding set find place ℕ_order
create_index-IsIndexed_example =
    create_index-IsIndexed trees ℕ_order-IsExact "length" (some by_length) two_keys tt

with_index-IsIndexed : IsIndexed trees with_index.state
unfolding set find place ℕ_order
with_index-IsIndexed =
    create_index-IsIndexed trees ℕ_order-IsExact "length" (some by_length) two_keys tt

created : (create_index trees "length" (some by_length) two_keys).0 ≡ ok tt
unfolding create_index idx_get set find place ℕ_order
created = refl

abbrev length_index : Index trees
length_index =
    fill_index trees (new_index trees by_length) (trees.data_map.items two_keys.state.pairs)

registered : idx_get trees "length" with_index.state.idx ≡ some length_index
unfolding create_index idx_get set find place ℕ_order
registered = refl

db_ascend_index-db_get_example :
    IsSorted
      (index_order ℕ_order length_index.compare)
      to_entry
      (db_ascend_index trees (pos 200) with_index "length")
    × ((k : ℕ) (v : Bytes)
        → find
            (index_order ℕ_order length_index.compare)
            to_entry
            (record { k = k; v = v })
            (db_ascend_index trees (pos 200) with_index "length")
          ≡ shown_pair trees
              (pos 200)
              length_index.compare
              k
              v
              (db_get trees (pos 200) with_index k))
db_ascend_index-db_get_example =
    db_ascend_index-db_get trees (pos 200) with_index "length" length_index with_index-IsIndexed
      registered
