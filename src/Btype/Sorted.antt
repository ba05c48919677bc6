-- ===== src/Btype/Sorted.antt =====
-- Sequences sorted by a key, without repetitions: the contract of a tree.
use btypedb.Prelude.{
  ◌≡◌, refl, ◌∙◌, Bool, true, false, Option, none, some, List, [], ◌∷◌, arith, All, Ordering,
  if◌then◌else◌,
}
use btypedb.Prelude.Order.{Order, is_eq, cmp_cong_right, cmp_gt}

abbrev pub is_some {ℓ} : {A : Type ℓ} → Option A → Bool
is_some none = false
is_some (some _) = true

module _ {K A : Type 0} (o : Order K) (key : A → K) where
  -- The item with this key.
  unfoldable pub find : K → List A → Option A
  find k [] = none
  find k (y ∷ ys) = elim (o.cmp k (key y)) [
    | Ordering.lt ↦ none
    | Ordering.eq ↦ some y
    | Ordering.gt ↦ find k ys
  ]

  -- An item put in its place, over one with the same key.
  unfoldable pub place : A → List A → List A
  place x [] = x ∷ []
  place x (y ∷ ys) = elim (o.cmp (key x) (key y)) [
    | Ordering.lt ↦ x ∷ y ∷ ys
    | Ordering.eq ↦ x ∷ ys
    | Ordering.gt ↦ y ∷ place x ys
  ]

  unfoldable pub remove : K → List A → List A
  remove k [] = []
  remove k (y ∷ ys) = elim (o.cmp k (key y)) [
    | Ordering.lt ↦ y ∷ ys
    | Ordering.eq ↦ ys
    | Ordering.gt ↦ y ∷ remove k ys
  ]

  -- The items at or behind a key, and those at or before it.
  unfoldable pub items_from : K → List A → List A
  items_from k [] = []
  items_from k (y ∷ ys) = elim (o.cmp k (key y)) [
    | Ordering.lt ↦ y ∷ ys
    | Ordering.eq ↦ y ∷ ys
    | Ordering.gt ↦ items_from k ys
  ]

  unfoldable pub items_upto : K → List A → List A
  items_upto k [] = []
  items_upto k (y ∷ ys) = elim (o.cmp k (key y)) [
    | Ordering.lt ↦ []
    | Ordering.eq ↦ y ∷ []
    | Ordering.gt ↦ y ∷ items_upto k ys
  ]

  abbrev pub Above : K → List A → Type 0
  Above k = All (λ y. o.cmp k (key y) ≡ Ordering.lt)

  abbrev pub IsSorted : List A → Type 0
  IsSorted [] = Unit
  IsSorted (y ∷ ys) = Above (key y) ys × IsSorted ys

module _ {K A : Type 0} (o : Order K) (key : A → K) where
  pub find-place :
      (j : K) (x : A) (l : List A)
      → find o key j (place o key x l)
        ≡ (if is_eq (o.cmp j (key x)) then some x else find o key j l)
  unfolding find place
  find-place j x [] = ground arith
  find-place j x (y ∷ ys) = ground (
    arith,
    find-place j x ys,
    o.cmp_trans j (key x) (key y),
    o.cmp_trans j (key y) (key x),
    o.cmp_cong j (key x) (key y),
    o.cmp_cong j (key y) (key x),
    o.cmp_cong (key x) (key y) j,
    cmp_cong_right o j (key x) (key y),
    cmp_gt o (key x) (key y),
  )

  pub Above-trans :
      (j k : K) (l : List A) → o.cmp j k ≡ Ordering.lt → Above o key k l → Above o key j l
  Above-trans j k [] h a = tt
  Above-trans j k (y ∷ ys) h a = (o.cmp_trans j k (key y) h a.0, Above-trans j k ys h a.1)

  pub Above-cong :
      (j k : K) (l : List A) → o.cmp j k ≡ Ordering.eq → Above o key k l → Above o key j l
  Above-cong j k [] h a = tt
  Above-cong j k (y ∷ ys) h a = (o.cmp_cong j k (key y) h ∙ a.0, Above-cong j k ys h a.1)

  pub find-Above : (j : K) (l : List A) → Above o key j l → find o key j l ≡ none
  unfolding find
  find-Above j [] a = refl
  find-Above j (y ∷ ys) a = rw (a.0, find)

  -- What is found compares equal.
  pub find_cmp :
      (k : K) (l : List A) (x : A) → find o key k l ≡ some x → o.cmp k (key x) ≡ Ordering.eq
  unfolding find
  find_cmp k [] x e = ground (arith, e)
  find_cmp k (y ∷ ys) x e = ground (arith, e, find_cmp k ys x)

  pub find-remove :
      (j k : K) (l : List A)
      → IsSorted o key l
      → find o key j (remove o key k l) ≡ (if is_eq (o.cmp j k) then none else find o key j l)
  unfolding find remove
  find-remove j k [] s = ground arith
  find-remove j k (y ∷ ys) s = ground (
    arith,
    find-remove j k ys s.1,
    find-Above j ys,
    Above-trans j (key y) ys,
    Above-cong j (key y) ys,
    o.cmp_trans j k (key y),
    o.cmp_trans j (key y) k,
    o.cmp_cong j k (key y),
    o.cmp_cong k (key y) j,
    cmp_cong_right o j k (key y),
    cmp_gt o k (key y),
  )

  place-Above :
      (k : K) (x : A) (l : List A)
      → o.cmp k (key x) ≡ Ordering.lt
      → Above o key k l
      → Above o key k (place o key x l)
  unfolding place
  place-Above k x [] h a = (h, tt)
  place-Above k x (y ∷ ys) h a = go (o.cmp (key x) (key y)) (place-Above k x ys h a.1)
    where
      go :
          (c : Ordering)
          → Above o key k (place o key x ys)
          → Above o key k (elim c [
            | Ordering.lt ↦ x ∷ y ∷ ys
            | Ordering.eq ↦ x ∷ ys
            | Ordering.gt ↦ y ∷ place o key x ys
          ])
      go Ordering.lt p = (h, a)
      go Ordering.eq p = (h, a.1)
      go Ordering.gt p = (a.0, p)

  remove-Above : (j k : K) (l : List A) → Above o key j l → Above o key j (remove o key k l)
  unfolding remove
  remove-Above j k [] a = tt
  remove-Above j k (y ∷ ys) a = go (o.cmp k (key y)) (remove-Above j k ys a.1)
    where
      go :
          (c : Ordering)
          → Above o key j (remove o key k ys)
          → Above o key j (elim c [
            | Ordering.lt ↦ y ∷ ys
            | Ordering.eq ↦ ys
            | Ordering.gt ↦ y ∷ remove o key k ys
          ])
      go Ordering.lt p = a
      go Ordering.eq p = a.1
      go Ordering.gt p = (a.0, p)

  pub place-IsSorted : (x : A) (l : List A) → IsSorted o key l → IsSorted o key (place o key x l)
  unfolding place
  place-IsSorted x [] s = (tt, tt)
  place-IsSorted x (y ∷ ys) s = go (o.cmp (key x) (key y)) refl (place-IsSorted x ys s.1)
    where
      go :
          (c : Ordering)
          → o.cmp (key x) (key y) ≡ c
          → IsSorted o key (place o key x ys)
          → IsSorted o key (elim c [
            | Ordering.lt ↦ x ∷ y ∷ ys
            | Ordering.eq ↦ x ∷ ys
            | Ordering.gt ↦ y ∷ place o key x ys
          ])
      go Ordering.lt e p = ((e, Above-trans (key x) (key y) ys e s.0), s)
      go Ordering.eq e p = (Above-cong (key x) (key y) ys e s.0, s.1)
      go Ordering.gt e p = (place-Above (key y) x ys (cmp_gt o (key x) (key y) e) s.0, p)

  pub remove-IsSorted : (k : K) (l : List A) → IsSorted o key l → IsSorted o key (remove o key k l)
  unfolding remove
  remove-IsSorted k [] s = tt
  remove-IsSorted k (y ∷ ys) s = go (o.cmp k (key y)) (remove-IsSorted k ys s.1)
    where
      go :
          (c : Ordering)
          → IsSorted o key (remove o key k ys)
          → IsSorted o key (elim c [
            | Ordering.lt ↦ y ∷ ys
            | Ordering.eq ↦ ys
            | Ordering.gt ↦ y ∷ remove o key k ys
          ])
      go Ordering.lt p = s
      go Ordering.eq p = s.1
      go Ordering.gt p = (remove-Above (key y) k ys s.0, p)
