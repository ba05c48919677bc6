-- ===== src/Btype/Distinct.antt =====
-- Lists of different keys, counted: a list whose members all stand in another is not longer.
use btypedb.Prelude.{
  suc, ◌≤◌, ◌≡◌, refl, ◌∙◌, Bool, true, false, ◌||◌, some, List, [], ◌∷◌, All, length, map, arith,
  Bool-cases, inl, inr, if◌then◌else◌, Ordering,
}
use btypedb.Prelude.Order.{Order, same, cmp_cong_right}
use btypedb.Btype.Sorted.{find, is_some, Above, IsSorted, find-Above, Above-trans}

module _ {K : Type 0} (o : Order K) where
  abbrev pub mem : K → List K → Bool
  mem k [] = false
  mem k (y ∷ ys) = same o k y || mem k ys

  abbrev pub IsDistinct : List K → Type 0
  IsDistinct [] = Unit
  IsDistinct (x ∷ xs) = (mem x xs ≡ false) × IsDistinct xs

  abbrev erase : K → List K → List K
  erase k [] = []
  erase k (y ∷ ys) = if same o k y then ys else y ∷ erase k ys

  length-erase : (k : K) (ys : List K) → mem k ys ≡ true → length ys ≡ suc (length (erase k ys))
  length-erase k [] h = ground (arith, h)
  length-erase k (y ∷ ys) h = ground (arith, h, length-erase k ys)

  mem-same : (j k : K) (ys : List K) → same o j k ≡ true → mem j ys ≡ mem k ys
  mem-same j k [] h = refl
  mem-same j k (y ∷ ys) h = ground (arith, h, o.cmp_cong j k y, mem-same j k ys)

  mem-erase : (j k : K) (ys : List K) → same o j k ≡ false → mem j (erase k ys) ≡ mem j ys
  mem-erase j k [] h = refl
  mem-erase j k (y ∷ ys) h = ground (arith, h, cmp_cong_right o j k y, mem-erase j k ys)

  -- Different keys, all in `ys`.
  pub length-IsDistinct :
      (xs ys : List K)
      → IsDistinct xs
      → ((k : K) → mem k xs ≡ true → mem k ys ≡ true)
      → length xs ≤ length ys
  length-IsDistinct [] ys d h = omega arith
  length-IsDistinct (x ∷ xs) ys d h =
      let there = h x (ground (arith, o.cmp_refl x)) in
      let rest = length-IsDistinct xs (erase x ys) d.1 (λ k m. elim (Bool-cases (same o k x)) [
        | inl here ↦ absurd (ground (arith, mem-same k x xs here, m, d.0))
        | inr other ↦ mem-erase k x ys other ∙ h k (ground (arith, m))
      ]) in
      omega (arith, rest, length-erase x ys there)

module _ {K A : Type 0} (o : Order K) (key : A → K) where
  -- The keys of a sorted sequence.
  pub mem-find :
      (k : K) (l : List A) → IsSorted o key l → mem o k (map key l) ≡ is_some (find o key k l)
  unfolding find
  mem-find k [] s = refl
  mem-find k (y ∷ ys) s =
      ground (arith, mem-find k ys s.1, find-Above o key k ys, Above-trans o key k (key y) ys, s.0)

  pub sorted-IsDistinct : (l : List A) → IsSorted o key l → IsDistinct o (map key l)
  sorted-IsDistinct [] s = tt
  sorted-IsDistinct (y ∷ ys) s =
      (mem-find (key y) ys s.1 ∙ rw (find-Above o key (key y) ys s.0), sorted-IsDistinct ys s.1)

  -- A member is the key of an item.
  pub mem-All :
      (P : A → Type 0) (k : K) (l : List A)
      → All P l
      → mem o k (map key l) ≡ true
      → (x : A) × P x × (o.cmp k (key x) ≡ Ordering.eq)
  mem-All P k [] h m = absurd (ground (arith, m))
  mem-All P k (y ∷ ys) h m = elim (Bool-cases (same o k (key y))) [
    | inl here ↦ (y, h.0, ground (arith, here))
    | inr other ↦ mem-All P k ys h.1 (ground (arith, m, other))
  ]

  -- Every item of a sorted sequence is what is found at its key.
  found_behind :
      (x : A) (all l : List A)
      → Above o key (key x) l
      → All (λ e. find o key (key e) all ≡ some e) l
      → All (λ e. find o key (key e) (x ∷ all) ≡ some e) l
  unfolding find
  found_behind x all [] a f = tt
  found_behind x all (e ∷ l) a f =
      (ground (arith, o.cmp_flip (key x) (key e), a.0, f.0), found_behind x all l a.1 f.1)

  pub find_self : (l : List A) → IsSorted o key l → All (λ e. find o key (key e) l ≡ some e) l
  unfolding find
  find_self [] s = tt
  find_self (x ∷ l) s = (rw (find, o.cmp_refl (key x)), found_behind x l l s.0 (find_self l s.1))
