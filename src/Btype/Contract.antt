-- ===== src/Btype/Contract.antt =====
-- The interfaces of `btype.Table` and `btype.Map`.
use btypedb.Btype.Sorted.{find, place, remove, items_from, items_upto, IsSorted, is_some}
use btypedb.Prelude.{ℕ, ◌≡◌, Bool, Option, none, some, List, [], length}
use btypedb.Prelude.Order.{Order}
use mathlib.Core.List.{reverse}

-- `btype.Table[T]` with the comparison that `NewTableOptions` was given.
pub record TableLib {A : Type 0} (o : Order A) : Type 1 where
  pub Tree : Type 0
  pub items : Tree → List A
  pub new : Tree
  pub set : Tree → A → Tree
  pub delete : Tree → A → Tree
  pub ascend : Tree → A → List A
  pub descend : Tree → A → List A
  pub backward : Tree → List A
  pub sorted : (t : Tree) → IsSorted o (λ a. a) (items t)
  pub items-new : items new ≡ []
  pub items-set : (t : Tree) (a : A) → items (set t a) ≡ place o (λ x. x) a (items t)
  pub items-delete : (t : Tree) (a : A) → items (delete t a) ≡ remove o (λ x. x) a (items t)
  pub ascend-eq : (t : Tree) (a : A) → ascend t a ≡ items_from o (λ x. x) a (items t)
  pub descend-eq : (t : Tree) (a : A) → descend t a ≡ reverse (items_upto o (λ x. x) a (items t))
  pub backward-eq : (t : Tree) → backward t ≡ reverse (items t)

abbrev pub value : {K V : Type 0} → Option (K × V) → Option V
value none = none
value (some (k, v)) = some v

abbrev pub pair_key : {K V : Type 0} → K × V → K
pair_key (k, v) = k

-- `btype.Map[K, V]`: `set` and `delete` also return the value that was there.
pub record MapLib {K : Type 0} (o : Order K) (V : Type 0) : Type 1 where
  pub Tree : Type 0
  pub items : Tree → List (K × V)
  pub new : Tree
  pub set : Tree → K → V → Tree × Option V
  pub delete : Tree → K → Tree × Option V
  pub get : Tree → K → Option V
  pub contains : Tree → K → Bool
  pub len : Tree → ℕ
  pub ascend : Tree → K → List (K × V)
  pub descend : Tree → K → List (K × V)
  pub backward : Tree → List (K × V)
  pub sorted : (t : Tree) → IsSorted o pair_key (items t)
  pub items-new : items new ≡ []
  pub items-set :
      (t : Tree) (k : K) (v : V) → items (set t k v).0 ≡ place o pair_key (k, v) (items t)
  pub set-previous :
      (t : Tree) (k : K) (v : V) → (set t k v).1 ≡ value (find o pair_key k (items t))
  pub items-delete : (t : Tree) (k : K) → items (delete t k).0 ≡ remove o pair_key k (items t)
  pub delete-previous : (t : Tree) (k : K) → (delete t k).1 ≡ value (find o pair_key k (items t))
  pub get-eq : (t : Tree) (k : K) → get t k ≡ value (find o pair_key k (items t))
  pub contains-eq : (t : Tree) (k : K) → contains t k ≡ is_some (find o pair_key k (items t))
  pub len-eq : (t : Tree) → len t ≡ length (items t)
  pub ascend-eq : (t : Tree) (k : K) → ascend t k ≡ items_from o pair_key k (items t)
  pub descend-eq : (t : Tree) (k : K) → descend t k ≡ reverse (items_upto o pair_key k (items t))
  pub backward-eq : (t : Tree) → backward t ≡ reverse (items t)
