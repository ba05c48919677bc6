-- ===== src/State/Entries.antt =====
-- The entries of the derived trees of state.go, and their comparisons.
use btypedb.Prelude.Int.{ℤ}
use btypedb.Prelude.Order.{Order, on, then_by, ℤ_order}

-- `expEntry`: a key with its deadline, in unix nanoseconds.
pub record ExpEntry (K : Type 0) : Type 0 where
  pub at : ℤ
  pub key : K

-- `ientry`
pub record IEntry (K V : Type 0) : Type 0 where
  pub k : K
  pub v : V

module _ {K : Type 0} (o : Order K) where
  -- By deadline, then by key.
  unfoldable pub exp_order : Order (ExpEntry K)
  unfolding then_by on ℤ_order
  exp_order = then_by (on (λ e. e.at) ℤ_order) (on (λ e. e.key) o)

  -- By the user's comparator, then by key.
  unfoldable pub index_order : {V : Type 0} → Order (K × V) → Order (IEntry K V)
  unfolding then_by on
  index_order compare = then_by (on (λ e. (e.k, e.v)) compare) (on (λ e. e.k) o)
