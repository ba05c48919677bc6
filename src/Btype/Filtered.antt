-- ===== src/Btype/Filtered.antt =====
-- A sorted sequence with some items left out.
use btypedb.Prelude.{
  ◌≡◌, refl, Bool, Option, none, some, List, [], ◌∷◌, Ordering, Bool-cases, inl, inr, if◌then◌else◌,
}
use btypedb.Prelude.Order.{Order}
use btypedb.Btype.Sorted.{find, Above, IsSorted, Above-trans, Above-cong, find-Above}

abbrev pub filter {ℓ} : {A : Type ℓ} → (A → Bool) → List A → List A
filter p [] = []
filter p (x ∷ xs) = let rest = filter p xs in if p x then x ∷ rest else rest

abbrev pub keep_if {ℓ} : {A : Type ℓ} → (A → Bool) → Option A → Option A
keep_if p none = none
keep_if p (some x) = if p x then some x else none

module _ {K A : Type 0} (o : Order K) (key : A → K) (p : A → Bool) where
  pub filter-Above : (k : K) (l : List A) → Above o key k l → Above o key k (filter p l)
  filter-Above k [] a = tt
  filter-Above k (y ∷ ys) a = elim (Bool-cases (p y)) [
    | inl stays ↦ rw stays (a.0, filter-Above k ys a.1)
    | inr goes ↦ rw goes (filter-Above k ys a.1)
  ]

  pub filter-IsSorted : (l : List A) → IsSorted o key l → IsSorted o key (filter p l)
  filter-IsSorted [] s = tt
  filter-IsSorted (y ∷ ys) s = elim (Bool-cases (p y)) [
    | inl stays ↦ rw stays (filter-Above (key y) ys s.0, filter-IsSorted ys s.1)
    | inr goes ↦ rw goes (filter-IsSorted ys s.1)
  ]

  find-filter-Above : (k : K) (l : List A) → Above o key k l → find o key k (filter p l) ≡ none
  find-filter-Above k l a = find-Above o key k (filter p l) (filter-Above k l a)

  find-filter_head :
      (k : K) (y : A) (ys : List A)
      → IsSorted o key (y ∷ ys)
      → find o key k (filter p ys) ≡ keep_if p (find o key k ys)
      → (c : Ordering) → o.cmp k (key y) ≡ c
      → find o key k (filter p (y ∷ ys)) ≡ keep_if p (find o key k (y ∷ ys))
  unfolding find
  find-filter_head k y ys s rest Ordering.lt e = elim (Bool-cases (p y)) [
    | inl stays ↦ rw (stays, find, e)
    | inr goes ↦ rw (goes, find, e) (find-filter-Above k ys (Above-trans o key k (key y) ys e s.0))
  ]
  find-filter_head k y ys s rest Ordering.eq e = elim (Bool-cases (p y)) [
    | inl stays ↦ rw (stays, find, e, stays)
    | inr goes ↦
        rw (goes, find, e, goes) (find-filter-Above k ys (Above-cong o key k (key y) ys e s.0))
  ]
  find-filter_head k y ys s rest Ordering.gt e = elim (Bool-cases (p y)) [
    | inl stays ↦ rw (stays, find, e) rest
    | inr goes ↦ rw (goes, find, e) rest
  ]

  pub find-filter :
      (k : K) (l : List A)
      → IsSorted o key l
      → find o key k (filter p l) ≡ keep_if p (find o key k l)
  unfolding find
  find-filter k [] s = refl
  find-filter k (y ∷ ys) s = find-filter_head k y ys s (find-filter k ys s.1) (o.cmp k (key y)) refl
