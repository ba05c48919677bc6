-- ===== src/State/Reads.antt =====
-- What reads of the trees see after `set` and `delete`.
use btypedb.Prelude.{
  ◌≡◌, ◌∙◌, Bool, false, ◌&&◌, ◌||◌, not, Option, none, some, arith, if◌then◌else◌, Option-cases,
  inl, inr,
}
use btypedb.Prelude.Int.{ℤ, pos, ltb_ℤ, compare_ℤ}
use btypedb.Prelude.Order.{Order, is_eq, same}
use btypedb.Btype.Laws.{get-set, get-delete, delete-prev, has, has-set, has-delete}
use btypedb.State.Entries.{exp_order}
use btypedb.State.{Trees, DbState, set, delete, delete_present, exp_delete}

abbrev pub is_deadline : ℤ → Option ℤ → Bool
is_deadline at none = false
is_deadline at (some d) = is_eq (compare_ℤ at d)

same_exp :
    {K : Type 0} (o : Order K) (a d : ℤ) (j k : K)
    → same (exp_order o) (record { at = a; key = j }) (record { at = d; key = k })
      ≡ (is_eq (o.cmp j k) && is_eq (compare_ℤ a d))
unfolding exp_order
same_exp o a d j k = ground arith

module _ {K : Type 0} {o : Order K} {V : Type 0} (trees : Trees o V) where
  open trees use {data_map, ttl_map, exp_table}

  abbrev pub val_of : DbState trees → K → Option V
  val_of s k = data_map.get s.pairs k

  abbrev pub ttl_of : DbState trees → K → Option ℤ
  ttl_of s k = ttl_map.get s.ttl k

  abbrev pub has_exp : DbState trees → K → ℤ → Bool
  has_exp s k at = has exp_table s.exp (record { at = at; key = k })

  module _ (s : DbState trees) (k : K) where
    pub val-set :
        (v : V) (d : ℤ) (j : K)
        → val_of (set trees s k v d) j ≡ (if same o j k then some v else val_of s j)
    unfolding set
    val-set v d j = get-set data_map s.pairs k v j

    abbrev pub deadline_of : ℤ → Option ℤ
    deadline_of d = if ltb_ℤ (pos 0) d then some d else none

    pub ttl-set :
        (v : V) (d : ℤ) (j : K)
        → ttl_of (set trees s k v d) j ≡ (if same o j k then deadline_of d else ttl_of s j)
    unfolding set
    ttl-set v d j =
        ground
          (arith, get-set ttl_map (ttl_map.delete s.ttl k).0 k d j, get-delete ttl_map s.ttl k j)

    -- The entries of the deadline tree, once the old deadline of `k` is gone.
    exp-delete :
        (old : Option ℤ) (j : K) (at : ℤ)
        → has exp_table (exp_delete trees k old s.ttl s.exp) (record { at = at; key = j })
          ≡ (not (is_eq (o.cmp j k) && is_deadline at old) && has_exp s j at)
    exp-delete none j at = ground arith
    exp-delete (some d) j at =
        has-delete exp_table s.exp (record { at = d; key = k }) (record { at = at; key = j })
        ∙ rw (same_exp o at d j k)

    pub exp-set :
        (v : V) (d : ℤ) (j : K) (at : ℤ)
        → has_exp (set trees s k v d) j at ≡ (
            (is_eq (o.cmp j k) && is_deadline at (deadline_of d))
            || (not (is_eq (o.cmp j k) && is_deadline at (ttl_of s k)) && has_exp s j at))
    unfolding set
    exp-set v d j at =
        let exp = exp_delete trees k (ttl_map.delete s.ttl k).1 s.ttl s.exp in
        ground (
          arith,
          has-set exp_table exp (record { at = d; key = k }) (record { at = at; key = j }),
          exp-delete (ttl_map.delete s.ttl k).1 j at,
          delete-prev ttl_map s.ttl k,
          same_exp o at d j k,
        )

    -- `delete` of a key that is there, and of one that is not.
    pub delete-absent :
        val_of s k ≡ none
        → delete trees s k ≡ (record s { pairs = (data_map.delete s.pairs k).0 }, none)
    unfolding delete
    delete-absent h = let e = delete-prev data_map s.pairs k ∙ h in rw (e, delete)

    pub delete-there :
        (v : V) → val_of s k ≡ some v → delete trees s k ≡ (delete_present trees s k v, some v)
    unfolding delete
    delete-there v h = let e = delete-prev data_map s.pairs k ∙ h in rw (e, delete)

    pub val-delete :
        (j : K) → val_of (delete trees s k).0 j ≡ (if same o j k then none else val_of s j)
    val-delete j = elim (Option-cases (val_of s k)) [
      | inl e ↦ rw (delete-absent e) (get-delete data_map s.pairs k j)
      | inr (v, e) ↦ rw (delete-there v e) (get-delete data_map s.pairs k j)
    ]

    pub ttl-delete_present :
        (v : V) (j : K)
        → ttl_of (delete_present trees s k v) j ≡ (if same o j k then none else ttl_of s j)
    ttl-delete_present v j = get-delete ttl_map s.ttl k j

    pub exp-delete_present :
        (v : V) (j : K) (at : ℤ)
        → has_exp (delete_present trees s k v) j at
          ≡ (not (is_eq (o.cmp j k) && is_deadline at (ttl_of s k)) && has_exp s j at)
    exp-delete_present v j at =
        ground (arith, exp-delete (ttl_map.delete s.ttl k).1 j at, delete-prev ttl_map s.ttl k)
