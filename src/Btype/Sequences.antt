-- ===== src/Btype/Sequences.antt =====
-- Sorted lists meet the contract of the trees.
use btypedb.Prelude.{refl, List, [], length}
use btypedb.Prelude.Order.{Order}
use btypedb.Btype.Sorted.{
  find, place, remove, items_from, items_upto, IsSorted, place-IsSorted, remove-IsSorted, is_some,
}
use btypedb.Btype.Contract.{TableLib, MapLib, value, pair_key}
use mathlib.Core.List.{reverse}

abbrev pub seq_table : {A : Type 0} (o : Order A) → TableLib o
seq_table {A} o = record {
  Tree = (l : List A) × IsSorted o (λ a. a) l;
  items = λ t. t.0;
  new = ([], tt);
  set = λ t a. (place o (λ x. x) a t.0, place-IsSorted o (λ x. x) a t.0 t.1);
  delete = λ t a. (remove o (λ x. x) a t.0, remove-IsSorted o (λ x. x) a t.0 t.1);
  ascend = λ t a. items_from o (λ x. x) a t.0;
  descend = λ t a. reverse (items_upto o (λ x. x) a t.0);
  backward = λ t. reverse t.0;
  sorted = λ t. t.1;
  items-new = refl;
  items-set = λ t a. refl;
  items-delete = λ t a. refl;
  ascend-eq = λ t a. refl;
  descend-eq = λ t a. refl;
  backward-eq = λ t. refl;
}

abbrev pub seq_map : {K : Type 0} (o : Order K) (V : Type 0) → MapLib o V
seq_map {K} o V = record {
  Tree = (l : List (K × V)) × IsSorted o pair_key l;
  items = λ t. t.0;
  new = ([], tt);
  set = λ t k v. (
    (place o pair_key (k, v) t.0, place-IsSorted o pair_key (k, v) t.0 t.1),
    value (find o pair_key k t.0),
  );
  delete = λ t k. (
    (remove o pair_key k t.0, remove-IsSorted o pair_key k t.0 t.1),
    value (find o pair_key k t.0),
  );
  get = λ t k. value (find o pair_key k t.0);
  contains = λ t k. is_some (find o pair_key k t.0);
  len = λ t. length t.0;
  ascend = λ t k. items_from o pair_key k t.0;
  descend = λ t k. reverse (items_upto o pair_key k t.0);
  backward = λ t. reverse t.0;
  sorted = λ t. t.1;
  items-new = refl;
  items-set = λ t k v. refl;
  set-previous = λ t k v. refl;
  items-delete = λ t k. refl;
  delete-previous = λ t k. refl;
  get-eq = λ t k. refl;
  contains-eq = λ t k. refl;
  len-eq = λ t. refl;
  ascend-eq = λ t k. refl;
  descend-eq = λ t k. refl;
  backward-eq = λ t. refl;
}
