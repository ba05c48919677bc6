-- ===== src/State/Visible.antt =====
-- What `get` of state.go shows at a moment, after each of the operations.
use btypedb.Prelude.{
  ◌≡◌, refl, sym, true, Option, none, some, List, [], ◌∷◌, arith, if◌then◌else◌, Bool-cases,
  Option-cases, inl, inr, ◌==◌, length,
}
use btypedb.Prelude.Int.{ℤ, pos, ltb_ℤ, leb_ℤ}
use btypedb.Prelude.Order.{Order, same}
use btypedb.Btype.Sorted.{find}
use btypedb.Btype.Contract.{value, pair_key}
use btypedb.State.{Trees, DbState, set, delete, expired, due, hide, get}
use btypedb.State.Reads.{
  val_of, ttl_of, val-set, ttl-set, delete-absent, delete-there, val-delete, ttl-delete_present,
}

module _ {K : Type 0} {o : Order K} {V : Type 0} (trees : Trees o V) where
  open trees use {data_map, ttl_map}

  get_of_empty :
      (l : List (K × ℤ)) (k : K) → (length l == 0) ≡ true → value (find o pair_key k l) ≡ none
  unfolding find
  get_of_empty [] k h = refl
  get_of_empty (x ∷ l) k h = absurd (ground (arith, h))

  -- The short cut for a database without deadlines changes nothing.
  pub expired-due :
      (s : DbState trees) (k : K) (now : ℤ)
      → expired trees s k now ≡ due trees now (ttl_of trees s k)
  unfolding expired
  expired-due s k now = elim (Bool-cases (ttl_map.len s.ttl == 0)) [
    | inl no_ttl ↦ rw no_ttl (
        rw (
          ttl_map.get-eq s.ttl k,
          get_of_empty (ttl_map.items s.ttl) k (rw (ttl_map.len-eq s.ttl) at no_ttl),
        ))
    | inr some_ttl ↦ rw some_ttl
  ]

  -- What is seen of one key: its value, unless its deadline has come.
  abbrev pub shown : ℤ → Option ℤ → Option V → Option V
  shown now ttl v = hide trees (due trees now ttl) v

  pub get-shown :
      (s : DbState trees) (k : K) (now : ℤ)
      → get trees s k now ≡ shown now (ttl_of trees s k) (val_of trees s k)
  unfolding get
  get-shown s k now = rw (expired-due s k now)

  -- After `set`, the key shows the new value until its deadline, if it has one, and every other key
  -- shows what it did.
  pub get-set :
      (s : DbState trees) (k j : K) (v : V) (d now : ℤ)
      → get trees (set trees s k v d) j now ≡ (
          if same o j k
          then (if ltb_ℤ (pos 0) d then (if leb_ℤ d now then none else some v) else some v)
          else get trees s j now)
  get-set s k j v d now =
      rw
        (
          get-shown (set trees s k v d) j now,
          val-set trees s k v d j,
          ttl-set trees s k v d j,
          get-shown s j now,
        )
        (ground arith)

  -- After `delete`, the key shows nothing, and every other key shows what it did; the value that
  -- `delete` returns is the one that was stored, expired or not.
  pub get-delete :
      (s : DbState trees) (k j : K) (now : ℤ)
      → (get trees (delete trees s k).0 j now ≡ (if same o j k then none else get trees s j now))
        × ((delete trees s k).1 ≡ val_of trees s k)
  get-delete s k j now = elim (Option-cases (val_of trees s k)) [
    | inl e ↦ (
      rw
          (
            get-shown (delete trees s k).0 j now,
            val-delete trees s k j,
            delete-absent trees s k e,
            get-shown s j now,
          )
          (ground arith),
      rw (delete-absent trees s k e) (sym e),
    )
    | inr (v, e) ↦ (
      rw (get-shown (delete trees s k).0 j now, val-delete trees s k j, get-shown s j now)
          (rw (delete-there trees s k v e) (rw (ttl-delete_present trees s k v j) (ground arith))),
      rw (delete-there trees s k v e) (sym e),
    )
  ]
