-- ===== src/Db/Compact/Restored.antt =====
-- What the sets of a snapshot restore.
use btypedb.Prelude.{
  ◌≡◌, refl, ◌∙◌, ap, true, Option, none, some, List, [], ◌∷◌, arith, if◌then◌else◌,
}
use btypedb.Prelude.Int.{ℤ, leb_ℤ, ltb_ℤ, pos}
use btypedb.Prelude.Order.{Order, IsExact}
use btypedb.Btype.Contract.{value, pair_key}
use btypedb.Btype.Laws.{get-new}
use btypedb.Btype.Sorted.{find, find_cmp, IsSorted, find-Above, Above-cong, Above-trans}
use btypedb.Btype.Filtered.{keep_if}
use btypedb.State.{Trees, DbState, empty_state, get, set, due}
use btypedb.State.Reads.{ttl_of}
use btypedb.State.Visible.{get-set, get-shown, shown, expired-due}
use btypedb.State.Iteration.{live, find-unexpired, unexpired-IsSorted}
use btypedb.Tx.Ranges.{unexpired}
use btypedb.Db.Apply.{Format}
use btypedb.Db.Compact.Agreement.{Agrees}
use btypedb.Db.Compact.Snapshot.{IsDeadline, deadline_or_zero, restored}

module _ {K : Type 0} {o : Order K} {V : Type 0} (trees : Trees o V) (format : Format K V)
    (snap : DbState trees) (deadlines : (k : K) → IsDeadline (ttl_of trees snap k)) where
  open trees use {data_map}

  set_shown :
      (c : Option ℤ) (v : V) (m : ℤ)
      → IsDeadline c
      → (if ltb_ℤ (pos 0) (deadline_or_zero c)
          then (if leb_ℤ (deadline_or_zero c) m then none else some v)
          else some v)
        ≡ (if due trees m c then none else some v)
  set_shown none v m h = refl
  set_shown (some d) v m h = rw h.0

  due_later :
      (c : Option ℤ) (now m : ℤ)
      → leb_ℤ now m ≡ true
      → due trees now c ≡ true
      → due trees m c ≡ true
  due_later none now m late h = ground (arith, h)
  due_later (some d) now m late h = ground (arith, late, h)

  -- What is seen of a pair that was restored, over what was seen before.
  abbrev seen : ℤ → Option (K × V) → Option V → Option V
  seen m none before = before
  seen m (some (j, v)) before = if due trees m (ttl_of trees snap j) then none else some v

  get-restored :
      (l : List (K × V)) (t : DbState trees) (k : K) (m : ℤ)
      → IsSorted o pair_key l
      → get trees (restored trees format snap t l) k m
        ≡ seen m (find o pair_key k l) (get trees t k m)
  unfolding find
  get-restored [] t k m s = refl
  get-restored ((j, v) ∷ l) t k m s =
      let d = deadline_or_zero (ttl_of trees snap j) in
      ground (
        arith,
        get-restored l (set trees t j v d) k m s.1,
        get-set trees t j k v d m,
        set_shown (ttl_of trees snap j) v m (deadlines j),
        find-Above o pair_key k l,
        Above-trans o pair_key k j l,
        Above-cong o pair_key k j l,
        s.0,
      )

  get-empty : (k : K) (m : ℤ) → get trees (empty_state trees) k m ≡ none
  get-empty k m = get-shown trees (empty_state trees) k m ∙ rw (get-new data_map k)

  seen-live :
      (exact : IsExact o) (now : ℤ) (k : K) (m : ℤ) (c : Option (K × V))
      → leb_ℤ now m ≡ true
      → ((j : K) (v : V) → c ≡ some (j, v) → k ≡ j)
      → shown trees m (ttl_of trees snap k) (value c)
        ≡ seen m (keep_if (live trees snap now) c) none
  seen-live exact now k m none late at = refl
  seen-live exact now k m (some (j, v)) late at =
      let here = at j v refl in
      ground (
        arith,
        expired-due trees snap j now,
        due_later (ttl_of trees snap j) now m late,
        ap (ttl_of trees snap) here,
      )

  -- The snapshot of a state, restored, shows what the state shows from the moment it was taken at.
  pub restored-Agrees :
      (exact : IsExact o) (now : ℤ)
      → Agrees trees now snap (
          restored trees format snap
            (empty_state trees)
            (unexpired trees snap now (data_map.items snap.pairs)))
  restored-Agrees exact now k m late =
      let l = data_map.items snap.pairs in
      let sorted = data_map.sorted snap.pairs in
      rw
        (
          get-shown trees snap k m,
          get-restored (unexpired trees snap now l) (empty_state trees) k m
              (unexpired-IsSorted trees snap now o pair_key l sorted),
          find-unexpired trees snap now o pair_key k l sorted,
          get-empty k m,
          data_map.get-eq snap.pairs k,
        )
        (seen-live exact now k m (find o pair_key k l) late
          (λ j v e. exact k j (find_cmp o pair_key k l (j, v) e)))
