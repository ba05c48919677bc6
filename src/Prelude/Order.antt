-- ===== src/Prelude/Order.antt =====
-- Total preorders, as comparison functions: `cmp.Compare` and the comparators of trees.
use Prim.Native.Nat.{ℕ, compare, Ordering}
use mathlib.Core.Path.{◌≡◌, refl, sym, ◌∙◌, ap, ap₂}
use mathlib.Core.Bool.{Bool, true, false}
use native.Mathlib.Omega.{arith}
use btypedb.Prelude.Int.{ℤ, compare_ℤ}

abbrev pub flip : Ordering → Ordering
flip Ordering.lt = Ordering.gt
flip Ordering.eq = Ordering.eq
flip Ordering.gt = Ordering.lt

abbrev pub is_eq : Ordering → Bool
is_eq Ordering.eq = true
is_eq _ = false

pub record Order (A : Type 0) : Type 0 where
  pub cmp : A → A → Ordering
  pub cmp_refl : (a : A) → cmp a a ≡ Ordering.eq
  pub cmp_flip : (a b : A) → cmp b a ≡ flip (cmp a b)
  pub cmp_trans :
      (a b c : A) → cmp a b ≡ Ordering.lt → cmp b c ≡ Ordering.lt → cmp a c ≡ Ordering.lt
  pub cmp_cong : (a b c : A) → cmp a b ≡ Ordering.eq → cmp a c ≡ cmp b c

-- The order tells all values apart.
abbrev pub IsExact : {A : Type 0} → Order A → Type 0
IsExact {A} o = (a b : A) → o.cmp a b ≡ Ordering.eq → a ≡ b

module _ {A : Type 0} (o : Order A) where
  abbrev pub same : A → A → Bool
  same a b = is_eq (o.cmp a b)

  pub cmp_cong_right : (a b c : A) → o.cmp b c ≡ Ordering.eq → o.cmp a b ≡ o.cmp a c
  cmp_cong_right a b c h = o.cmp_flip b a ∙ ap flip (o.cmp_cong b c a h) ∙ sym (o.cmp_flip c a)

  pub cmp_gt : (a b : A) → o.cmp a b ≡ Ordering.gt → o.cmp b a ≡ Ordering.lt
  cmp_gt a b h = cc (o.cmp_flip a b, ap flip h)

-- Values compared by a part of them.
unfoldable pub on : {A B : Type 0} → (A → B) → Order B → Order A
on f o = record {
  cmp = λ a b. o.cmp (f a) (f b);
  cmp_refl = λ a. o.cmp_refl (f a);
  cmp_flip = λ a b. o.cmp_flip (f a) (f b);
  cmp_trans = λ a b c. o.cmp_trans (f a) (f b) (f c);
  cmp_cong = λ a b c. o.cmp_cong (f a) (f b) (f c);
}

abbrev pub or_else : Ordering → Ordering → Ordering
or_else Ordering.eq c = c
or_else c _ = c

pub flip-or_else : (c d : Ordering) → or_else (flip c) (flip d) ≡ flip (or_else c d)
flip-or_else Ordering.lt d = refl
flip-or_else Ordering.eq d = refl
flip-or_else Ordering.gt d = refl

module _ {A : Type 0} (o p : Order A) where
  abbrev pub both : A → A → Ordering
  both a b = or_else (o.cmp a b) (p.cmp a b)

  pub both_trans :
      (a b c : A) → both a b ≡ Ordering.lt → both b c ≡ Ordering.lt → both a c ≡ Ordering.lt
  both_trans a b c h k =
      ground (arith, o.cmp_trans a b c, p.cmp_trans a b c, o.cmp_cong a b c, cmp_cong_right o a b c)

  pub both_cong : (a b c : A) → both a b ≡ Ordering.eq → both a c ≡ both b c
  both_cong a b c h = ground (arith, o.cmp_cong a b c, p.cmp_cong a b c)

  -- A second comparison decides where the first finds no difference.
  unfoldable pub then_by : Order A
  then_by = record {
    cmp = both;
    cmp_refl = λ a. ap₂ or_else (o.cmp_refl a) (p.cmp_refl a);
    cmp_flip =
        λ a b. ap₂ or_else (o.cmp_flip a b) (p.cmp_flip a b) ∙ flip-or_else (o.cmp a b) (p.cmp a b);
    cmp_trans = both_trans;
    cmp_cong = both_cong;
  }

pub compare_refl : (a : ℕ) → compare a a ≡ Ordering.eq
compare_refl a = ground arith

pub compare_flip : (a b : ℕ) → compare b a ≡ flip (compare a b)
compare_flip a b = ground arith

pub compare_trans :
    (a b c : ℕ) → compare a b ≡ Ordering.lt → compare b c ≡ Ordering.lt → compare a c ≡ Ordering.lt
compare_trans a b c h k = ground arith

pub compare_cong : (a b c : ℕ) → compare a b ≡ Ordering.eq → compare a c ≡ compare b c
compare_cong a b c h = ground arith

pub compare_exact : (a b : ℕ) → compare a b ≡ Ordering.eq → a ≡ b
compare_exact a b h = ground arith

unfoldable pub ℕ_order : Order ℕ
ℕ_order = record {
  cmp = compare;
  cmp_refl = compare_refl;
  cmp_flip = compare_flip;
  cmp_trans = compare_trans;
  cmp_cong = compare_cong;
}

pub compare_ℤ_refl : (a : ℤ) → compare_ℤ a a ≡ Ordering.eq
compare_ℤ_refl a = ground arith

pub compare_ℤ-flip : (a b : ℤ) → compare_ℤ b a ≡ flip (compare_ℤ a b)
compare_ℤ-flip a b = ground arith

pub compare_ℤ_trans :
    (a b c : ℤ)
    → compare_ℤ a b ≡ Ordering.lt
    → compare_ℤ b c ≡ Ordering.lt
    → compare_ℤ a c ≡ Ordering.lt
compare_ℤ_trans a b c h k = ground arith

pub compare_ℤ_cong : (a b c : ℤ) → compare_ℤ a b ≡ Ordering.eq → compare_ℤ a c ≡ compare_ℤ b c
compare_ℤ_cong a b c h = ground arith

pub compare_ℤ_exact : (a b : ℤ) → compare_ℤ a b ≡ Ordering.eq → a ≡ b
compare_ℤ_exact a b h = ground arith

unfoldable pub ℤ_order : Order ℤ
ℤ_order = record {
  cmp = compare_ℤ;
  cmp_refl = compare_ℤ_refl;
  cmp_flip = compare_ℤ-flip;
  cmp_trans = compare_ℤ_trans;
  cmp_cong = compare_ℤ_cong;
}

pub eq_of_is_eq : (c : Ordering) → is_eq c ≡ true → c ≡ Ordering.eq
eq_of_is_eq c h = ground arith
