-- ===== src/State/Iteration.antt =====
-- What the iterators yield, against what `get` shows.
use btypedb.Prelude.{
  ◌≡◌, refl, ap, Bool, not, Option, none, some, List, [], ◌∷◌, Bool-cases, inl, inr,
}
use btypedb.Prelude.Int.{ℤ}
use btypedb.Prelude.Order.{Order, IsExact}
use btypedb.Btype.Contract.{value, pair_key}
use btypedb.Btype.Sorted.{find, IsSorted, find_cmp}
use btypedb.Btype.Filtered.{filter, keep_if, filter-IsSorted, find-filter}
use btypedb.State.{Trees, DbState, expired, hide}
use btypedb.Tx.Ranges.{unexpired}

module _ {K : Type 0} {o : Order K} {V : Type 0} (trees : Trees o V) (s : DbState trees)
    (now : ℤ) where
  abbrev pub live : K × V → Bool
  live (k, v) = not (expired trees s k now)

  -- The loop over a sequence keeps the pairs that are live.
  pub unexpired-filter : (l : List (K × V)) → unexpired trees s now l ≡ filter live l
  unfolding unexpired
  unexpired-filter [] = refl
  unexpired-filter ((k, v) ∷ l) = elim (Bool-cases (expired trees s k now)) [
    | inl gone ↦ rw gone (unexpired-filter l)
    | inr stays ↦ rw stays (ap (λ r. (k, v) ∷ r) (unexpired-filter l))
  ]

  pub unexpired-IsSorted :
      {Q : Type 0} (p : Order Q) (key : K × V → Q) (l : List (K × V))
      → IsSorted p key l
      → IsSorted p key (unexpired trees s now l)
  unexpired-IsSorted p key l h = rw (unexpired-filter l) (filter-IsSorted p key live l h)

  pub find-unexpired :
      {Q : Type 0} (p : Order Q) (key : K × V → Q) (q : Q) (l : List (K × V))
      → IsSorted p key l
      → find p key q (unexpired trees s now l) ≡ keep_if live (find p key q l)
  find-unexpired p key q l h = rw (unexpired-filter l) (find-filter p key live q l h)

  keep_if-hide :
      (k : K) (c : Option (K × V))
      → ((j : K) (v : V) → c ≡ some (j, v) → k ≡ j)
      → value (keep_if live c) ≡ hide trees (expired trees s k now) (value c)
  keep_if-hide k none at = refl
  keep_if-hide k (some (j, v)) at = elim (Bool-cases (expired trees s k now)) [
    | inl gone ↦ rw (← at j v refl, gone)
    | inr stays ↦ rw (← at j v refl, stays)
  ]

  pub find-unexpired-hide :
      (exact : IsExact o) (k : K) (l : List (K × V))
      → IsSorted o pair_key l
      → value (find o pair_key k (unexpired trees s now l))
        ≡ hide trees (expired trees s k now) (value (find o pair_key k l))
  find-unexpired-hide exact k l h =
      rw (find-unexpired o pair_key k l h) (
        keep_if-hide k (find o pair_key k l)
          (λ j v e. exact k j (find_cmp o pair_key k l (j, v) e)))
