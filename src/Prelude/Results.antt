-- ===== src/Prelude/Results.antt =====
-- Go's `(T, error)` results. An error stands for the sentinel that `errors.Is` finds in it, or for
-- the place that made it; the context that `serr.Wrap` adds is not kept.
use mathlib.Core.Path.{◌≡◌, refl}
use mathlib.Core.Logic.{◌⊎◌, ◌≢◌, inl, inr}

pub data Error : Type 0 where
  closed corrupt newer_format key_required wrong_key not_encrypted cipher_mismatch : Error
  tx_closed tx_not_writable savepoint_invalid epoch_changed : Error
  io_failure encode_failure decode_failure decrypt_failure malformed_ttl : Error
  bad_argument no_such_index index_exists log_suspect : Error

pub data Result {ℓ} (A : Type ℓ) : Type ℓ where
  ok : A → Result A
  err : Error → Result A

infixl 5 ◌>>=◌
abbrev pub ◌>>=◌ {ℓ κ} : {A : Type ℓ} {B : Type κ} → Result A → (A → Result B) → Result B
ok a >>= f = f a
err e >>= f = err e

pub Result-cases {ℓ} :
    {A : Type ℓ} (r : Result A) → ((a : A) × (r ≡ ok a)) ⊎ ((e : Error) × (r ≡ err e))
Result-cases (ok a) = inl (a, refl)
Result-cases (err e) = inr (e, refl)

-- A chain that succeeds has a first step that succeeds.
pub >>=-eq-ok {ℓ κ} :
    {A : Type ℓ} {B : Type κ} {out : B} (first : Result A) (next : A → Result B)
    → (first >>= next) ≡ ok out
    → (x : A) × (first ≡ ok x) × (next x ≡ ok out)
>>=-eq-ok (err _) next h = cc
>>=-eq-ok (ok x) next h = (x, refl, h)

pub err-ne-ok {ℓ} : {A : Type ℓ} {a : A} {e : Error} → err e ≢ ok a
err-ne-ok h = cc
