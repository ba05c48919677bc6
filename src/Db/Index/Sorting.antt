-- ===== src/Db/Index/Sorting.antt =====
-- `Indexes`: the names in order, each as often as it is registered.
use Prim.Native.String.{String, compare, then as first_of}
use Prim.Native.String.compare.{nil-nil, nil-cons, cons-nil, cons-cons}
use Prim.Native.Char.{code}
use text.Mathlib.Text.{◌==◌, is_le}
use btypedb.Prelude.{
  ℕ, ◌+◌, ◌≡◌, refl, ◌∙◌, true, List, [], ◌∷◌, if◌then◌else◌, arith, Ordering, map,
}
use btypedb.Prelude.Order.{Order, flip, compare_flip}
use btypedb.State.{Trees}
use btypedb.Db.Handle.{Db}
use btypedb.Db.Index.{indexes, sort_names, insert_name}

first_of-flip : (c d : Ordering) → first_of (flip c) (flip d) ≡ flip (first_of c d)
first_of-flip Ordering.lt d = refl
first_of-flip Ordering.eq d = refl
first_of-flip Ordering.gt d = refl

compare-flip : (s t : String) → compare t s ≡ flip (compare s t)
compare-flip String.[] String.[] = rw nil-nil
compare-flip String.[] (String.◌∷◌ d t) = rw (nil-cons d t, cons-nil d t)
compare-flip (String.◌∷◌ c s) String.[] = rw (nil-cons c s, cons-nil c s)
compare-flip (String.◌∷◌ c s) (String.◌∷◌ d t) =
    rw (cons-cons c d s t, cons-cons d c t s, compare-flip s t, compare_flip (code c) (code d))
      (first_of-flip _ _)

-- No name stands behind a greater one.
abbrev pub IsFirst : String → List String → Type 0
IsFirst n [] = Unit
IsFirst n (m ∷ l) = is_le (compare n m) ≡ true

abbrev pub IsAscending : List String → Type 0
IsAscending [] = Unit
IsAscending (n ∷ l) = IsFirst n l × IsAscending l

abbrev pub count : String → List String → ℕ
count n [] = 0
count n (m ∷ l) = (if m == n then 1 else 0) + count n l

insert_name-IsFirst :
    (m n : String) (l : List String)
    → compare n m ≡ Ordering.gt
    → IsFirst m l
    → IsFirst m (insert_name n l)
unfolding insert_name
insert_name-IsFirst m n [] h f = ground (arith, h, compare-flip n m)
insert_name-IsFirst m n (x ∷ l) h f = go (compare n x)
  where
    go :
        (c : Ordering)
        → IsFirst m (elim c [
          | Ordering.gt ↦ x ∷ insert_name n l
          | Ordering.eq ↦ n ∷ x ∷ l
          | Ordering.lt ↦ n ∷ x ∷ l
        ])
    go Ordering.lt = ground (arith, h, compare-flip n m)
    go Ordering.eq = ground (arith, h, compare-flip n m)
    go Ordering.gt = f

insert_name-IsAscending :
    (n : String) (l : List String) → IsAscending l → IsAscending (insert_name n l)
unfolding insert_name
insert_name-IsAscending n [] a = (tt, tt)
insert_name-IsAscending n (x ∷ l) a = go (compare n x) refl (insert_name-IsAscending n l a.1)
  where
    go :
        (c : Ordering)
        → compare n x ≡ c
        → IsAscending (insert_name n l)
        → IsAscending (elim c [
          | Ordering.gt ↦ x ∷ insert_name n l
          | Ordering.eq ↦ n ∷ x ∷ l
          | Ordering.lt ↦ n ∷ x ∷ l
        ])
    go Ordering.lt e more = (rw e, a)
    go Ordering.eq e more = (rw e, a)
    go Ordering.gt e more = (insert_name-IsFirst x n l e a.0, more)

count-insert_name : (m n : String) (l : List String) → count m (insert_name n l) ≡ count m (n ∷ l)
unfolding insert_name
count-insert_name m n [] = refl
count-insert_name m n (x ∷ l) = ground (arith, count-insert_name m n l)

sort_names-IsAscending : (l : List String) → IsAscending (sort_names l)
unfolding sort_names
sort_names-IsAscending [] = tt
sort_names-IsAscending (n ∷ l) = insert_name-IsAscending n (sort_names l) (sort_names-IsAscending l)

count-sort_names : (m : String) (l : List String) → count m (sort_names l) ≡ count m l
unfolding sort_names
count-sort_names m [] = refl
count-sort_names m (n ∷ l) =
    count-insert_name m n (sort_names l) ∙ ground (arith, count-sort_names m l)

-- Indexes gives the names of the registered indexes in ascending order, each as often as it is
-- registered, and no other name.
pub indexes-IsAscending :
    {K : Type 0} {o : Order K} {V : Type 0} (trees : Trees o V) (db : Db trees)
    → IsAscending (indexes trees db)
      × ((name : String) → count name (indexes trees db) ≡ count name (map (λ x. x.0) db.state.idx))
unfolding indexes
indexes-IsAscending trees db =
    let names = map (λ x. x.0) db.state.idx in
    (sort_names-IsAscending names, λ name. count-sort_names name names)
