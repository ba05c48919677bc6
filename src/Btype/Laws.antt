-- ===== src/Btype/Laws.antt =====
-- What follows of the contract of a tree for its reads.
use btypedb.Prelude.{
  ◌≡◌, refl, Bool, false, not, ◌&&◌, ◌||◌, Option, none, some, arith, if◌then◌else◌,
}
use btypedb.Prelude.Order.{Order, same}
use btypedb.Btype.Contract.{TableLib, MapLib, value, pair_key}
use btypedb.Btype.Sorted.{find, find-place, find-remove, is_some}

module _ {K V : Type 0} {o : Order K} (m : MapLib o V) where
  open m use {Tree, set, delete, get, contains}

  -- A read after a write, and after a removal.
  pub get-set :
      (t : Tree) (k : K) (v : V) (j : K)
      → get (set t k v).0 j ≡ (if same o j k then some v else get t j)
  get-set t k v j =
      rw
        (
          m.get-eq (set t k v).0 j,
          m.items-set t k v,
          find-place o pair_key j (k, v) (m.items t),
          m.get-eq t j,
        )
        (ground arith)

  pub get-delete :
      (t : Tree) (k j : K) → get (delete t k).0 j ≡ (if same o j k then none else get t j)
  get-delete t k j =
      rw
        (
          m.get-eq (delete t k).0 j,
          m.items-delete t k,
          find-remove o pair_key j k (m.items t) (m.sorted t),
          m.get-eq t j,
        )
        (ground arith)

  pub get-new : (j : K) → get m.new j ≡ none
  get-new j = rw (m.get-eq m.new j, m.items-new) (unfold find in refl)

  pub set-prev : (t : Tree) (k : K) (v : V) → (set t k v).1 ≡ get t k
  set-prev t k v = rw (m.get-eq t k) (m.set-previous t k v)

  pub delete-prev : (t : Tree) (k : K) → (delete t k).1 ≡ get t k
  delete-prev t k = rw (m.get-eq t k) (m.delete-previous t k)

  is_some-value : (o : Option (K × V)) → is_some o ≡ is_some (value o)
  is_some-value none = refl
  is_some-value (some (k, v)) = refl

  pub contains-get : (t : Tree) (k : K) → contains t k ≡ is_some (get t k)
  contains-get t k = rw (m.contains-eq t k, m.get-eq t k) (is_some-value _)

module _ {A : Type 0} {o : Order A} (l : TableLib o) where
  open l use {Tree, items, set, delete}

  -- An item of the table that compares equal.
  abbrev pub has : Tree → A → Bool
  has t a = is_some (find o (λ x. x) a (items t))

  pub has-set : (t : Tree) (a b : A) → has (set t a) b ≡ (same o b a || has t b)
  has-set t a b = rw (l.items-set t a, find-place o (λ x. x) b a (items t)) (ground arith)

  pub has-delete : (t : Tree) (a b : A) → has (delete t a) b ≡ (not (same o b a) && has t b)
  has-delete t a b =
      rw (l.items-delete t a, find-remove o (λ x. x) b a (items t) (l.sorted t)) (ground arith)

  pub has-new : (b : A) → has l.new b ≡ false
  has-new b = rw l.items-new (unfold find in refl)

  -- The item of the table that compares equal.
  abbrev pub item : Tree → A → Option A
  item t a = find o (λ x. x) a (items t)

  pub item-set : (t : Tree) (a b : A) → item (set t a) b ≡ (if same o b a then some a else item t b)
  item-set t a b = rw (l.items-set t a) (find-place o (λ x. x) b a (items t))

  pub item-delete :
      (t : Tree) (a b : A) → item (delete t a) b ≡ (if same o b a then none else item t b)
  item-delete t a b = rw (l.items-delete t a) (find-remove o (λ x. x) b a (items t) (l.sorted t))

  pub item-new : (b : A) → item l.new b ≡ none
  item-new b = rw l.items-new (unfold find in refl)
