-- ===== src/State/Refinement.antt =====
-- A state against what it promises: a function from keys to values with deadlines.
use mathlib.Core.Path.{fun_ext}
use btypedb.Prelude.{
  ◌≡◌, refl, ◌∙◌, ap, Bool, false, Option, none, some, List, [], ◌∷◌, arith, if◌then◌else◌,
  Option-cases, inl, inr,
}
use btypedb.Prelude.Int.{ℤ, pos, ltb_ℤ, leb_ℤ}
use btypedb.Prelude.Order.{Order, same}
use btypedb.Btype.Laws.{get-new}
use btypedb.State.{Trees, DbState, empty_state, delete, get, hide, due}
use btypedb.State.Reads.{
  val_of, ttl_of, val-set, ttl-set, val-delete, delete-absent, delete-there, ttl-delete_present,
}
use btypedb.State.Visible.{get-shown}
use btypedb.State.Changes.{Change, changed, run}

-- The abstract map: the value of a key, with the moment from which it is gone.
abbrev pub Spec : Type 0 → Type 0 → Type 0
Spec K V = K → Option (V × Option ℤ)

abbrev pub nowhere : {K V : Type 0} → Spec K V
nowhere k = none

abbrev pub spec_due : ℤ → Option ℤ → Bool
spec_due now none = false
spec_due now (some d) = leb_ℤ d now

abbrev pub spec_shown : {V : Type 0} → ℤ → Option (V × Option ℤ) → Option V
spec_shown now none = none
spec_shown now (some (v, until)) = if spec_due now until then none else some v

module _ {K V : Type 0} (o : Order K) where
  abbrev pub spec_changed : Spec K V → Change K V → Spec K V
  spec_changed f (Change.sets k v d) j =
      if same o j k then some (v, (if ltb_ℤ (pos 0) d then some d else none)) else f j
  spec_changed f (Change.deletes k) j = if same o j k then none else f j
  spec_changed f Change.nothing j = f j

  abbrev pub spec_run : Spec K V → List (Change K V) → Spec K V
  spec_run f [] = f
  spec_run f (c ∷ cs) = spec_run (spec_changed f c) cs

module _ {K : Type 0} {o : Order K} {V : Type 0} (trees : Trees o V) where
  abbrev with_deadline : Option ℤ → Option V → Option (V × Option ℤ)
  with_deadline d none = none
  with_deadline d (some v) = some (v, d)

  abbrev pub abstract_of : DbState trees → Spec K V
  abstract_of s k = with_deadline (ttl_of trees s k) (val_of trees s k)

  deleted :
      (s : DbState trees) (k j : K)
      → abstract_of (delete trees s k).0 j ≡ spec_changed o (abstract_of s) (Change.deletes k) j
  deleted s k j = elim (Option-cases (val_of trees s k)) [
    | inl e ↦ rw (val-delete trees s k j, delete-absent trees s k e) (ground arith)
    | inr (v, e) ↦
        rw (val-delete trees s k j, delete-there trees s k v e, ttl-delete_present trees s k v j)
          (ground arith)
  ]

  changed-abstract :
      (c : Change K V) (s : DbState trees)
      → abstract_of (changed trees s c) ≡ spec_changed o (abstract_of s) c
  changed-abstract (Change.sets k v d) s =
      fun_ext λ j. rw (val-set trees s k v d j, ttl-set trees s k v d j) (ground arith)
  changed-abstract (Change.deletes k) s = fun_ext (deleted s k)
  changed-abstract Change.nothing s = refl

  run-abstract :
      (cs : List (Change K V)) (s : DbState trees)
      → abstract_of (run trees s cs) ≡ spec_run o (abstract_of s) cs
  run-abstract [] s = refl
  run-abstract (c ∷ cs) s =
      run-abstract cs (changed trees s c) ∙ ap (λ f. spec_run o f cs) (changed-abstract c s)

  empty_state-abstract : abstract_of (empty_state trees) ≡ nowhere
  empty_state-abstract = fun_ext λ k. rw (get-new trees.data_map k)

  get-abstract :
      (s : DbState trees) (k : K) (now : ℤ) → get trees s k now ≡ spec_shown now (abstract_of s k)
  get-abstract s k now = get-shown trees s k now ∙ seen (ttl_of trees s k) (val_of trees s k)
    where
      seen :
          (d : Option ℤ) (v : Option V)
          → hide trees (due trees now d) v ≡ spec_shown now (with_deadline d v)
      seen d none = refl
      seen none (some v) = refl
      seen (some d) (some v) = refl

  -- Any sequence of sets and deletes on a new state reads, at every moment, as the same sequence on
  -- a function from keys to values with deadlines.
  pub run-get :
      (cs : List (Change K V)) (k : K) (now : ℤ)
      → get trees (run trees (empty_state trees) cs) k now
        ≡ spec_shown now (spec_run o nowhere cs k)
  run-get cs k now =
      get-abstract (run trees (empty_state trees) cs) k now
      ∙ ap (λ f. spec_shown now (f k))
          (run-abstract cs (empty_state trees) ∙ ap (λ f. spec_run o f cs) empty_state-abstract)
