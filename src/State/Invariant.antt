-- ===== src/State/Invariant.antt =====
-- The trees of a state agree: the deadlines are mirrored, and belong to keys that are there. The
-- indexes have a module of their own.
use btypedb.Prelude.{Ordering, ◌≡◌, ap, true, none, some, arith, Option-cases, inl, inr}
use btypedb.Prelude.Int.{ℤ, pos, ltb_ℤ}
use btypedb.Prelude.Order.{Order, IsExact}
use btypedb.Btype.Sorted.{is_some}
use btypedb.Btype.Laws.{get-delete, get-new, has-new}
use btypedb.State.{Trees, DbState, empty_state, set, delete, delete_present}
use btypedb.State.Reads.{
  val_of, ttl_of, has_exp, is_deadline, val-set, ttl-set, exp-set, delete-absent, delete-there,
  ttl-delete_present, exp-delete_present,
}

module _ {K : Type 0} {o : Order K} {V : Type 0} (trees : Trees o V) where
  open trees use {data_map, ttl_map, exp_table}

  pub record IsConsistent (s : DbState trees) : Type 0 where
    pub mirror : (k : K) (at : ℤ) → has_exp trees s k at ≡ is_deadline at (ttl_of trees s k)
    pub positive : (k : K) (d : ℤ) → ttl_of trees s k ≡ some d → ltb_ℤ (pos 0) d ≡ true
    pub covered : (k : K) (d : ℤ) → ttl_of trees s k ≡ some d → is_some (val_of trees s k) ≡ true

  -- A new state is consistent.
  pub empty_state-IsConsistent : IsConsistent (empty_state trees)
  empty_state-IsConsistent = record {
    mirror = λ k at. rw (get-new ttl_map k) (has-new exp_table (record { at = at; key = k }));
    positive = λ k d e. cc (e, get-new ttl_map k);
    covered = λ k d e. cc (e, get-new ttl_map k);
  }

  module _ (exact : IsExact o) (s : DbState trees) (k : K) (c : IsConsistent s) where
    ttl_same : (j : K) → o.cmp j k ≡ Ordering.eq → ttl_of trees s j ≡ ttl_of trees s k
    ttl_same j h = ap (ttl_of trees s) (exact j k h)

    -- `set` keeps the trees consistent, with a deadline or without one.
    pub set-IsConsistent : (v : V) (d : ℤ) → IsConsistent (set trees s k v d)
    set-IsConsistent v d = record {
      mirror = λ j at.
          rw (exp-set trees s k v d j at, ttl-set trees s k v d j)
            (ground (arith, c.mirror j at, ttl_same j));
      positive = λ j x e. ground (arith, rw (ttl-set trees s k v d j) at e, c.positive j x);
      covered = λ j x e.
          rw (val-set trees s k v d j)
            (ground (arith, rw (ttl-set trees s k v d j) at e, c.covered j x));
    }

    val_same : (j : K) → o.cmp j k ≡ Ordering.eq → val_of trees s j ≡ val_of trees s k
    val_same j h = ap (val_of trees s) (exact j k h)

    delete_absent-IsConsistent :
        val_of trees s k ≡ none → IsConsistent (record s { pairs = (data_map.delete s.pairs k).0 })
    delete_absent-IsConsistent absent = record {
      mirror = c.mirror;
      positive = c.positive;
      covered = λ j x e.
          rw (get-delete data_map s.pairs k j) (ground (arith, c.covered j x e, val_same j));
    }

    delete_present-IsConsistent : (v : V) → IsConsistent (delete_present trees s k v)
    delete_present-IsConsistent v = record {
      mirror = λ j at.
          rw (exp-delete_present trees s k v j at, ttl-delete_present trees s k v j)
            (ground (arith, c.mirror j at, ttl_same j));
      positive =
          λ j x e. ground (arith, rw (ttl-delete_present trees s k v j) at e, c.positive j x);
      covered = λ j x e.
          rw (get-delete data_map s.pairs k j)
            (ground (arith, rw (ttl-delete_present trees s k v j) at e, c.covered j x));
    }

    -- `delete` keeps the trees consistent, whether the key is there or not.
    pub delete-IsConsistent : IsConsistent (delete trees s k).0
    delete-IsConsistent = elim (Option-cases (val_of trees s k)) [
      | inl e ↦ rw (delete-absent trees s k e) (delete_absent-IsConsistent e)
      | inr (v, e) ↦ rw (delete-there trees s k v e) (delete_present-IsConsistent v)
    ]
