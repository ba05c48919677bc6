-- ===== src/Tx/Ranges.antt =====
-- `DeleteRange` and the reads of tx.go. A sequence is the list of what it yields to a loop that
-- does not stop.
use btypedb.Prelude.{
  ℕ, ◌+◌, Bool, true, false, not, Option, none, some, List, [], ◌∷◌, Result, ok, err, ◌>>=◌,
  tx_closed, tx_not_writable, if◌then◌else◌, map, Ordering,
}
use btypedb.Prelude.Int.{ℤ, pos, ◌-ℤ◌, leb_ℤ}
use btypedb.Prelude.Order.{Order}
use btypedb.Bytes.{Bytes}
use btypedb.State.{Trees, DbState, expired, get, live_len}
use btypedb.Db.Apply.{Format}
use btypedb.Tx.{Tx, logged_delete}

module _ {K : Type 0} {o : Order K} {V : Type 0} (trees : Trees o V) where
  open trees use {data_map, ttl_map}

  -- `break` at the first key that is not below `max`.
  unfoldable pub keys_below : K → List (K × V) → List K
  keys_below max [] = []
  keys_below max ((k, v) ∷ l) =
      let rest = keys_below max l in
      elim (o.cmp k max) [ Ordering.lt ↦ k ∷ rest | Ordering.eq ↦ [] | Ordering.gt ↦ [] ]

  module _ (format : Format K V) where
    open format use {key_codec}

    -- Every key is encoded before the first is deleted.
    unfoldable pub encode_keys : List K → Result (List (K × Bytes))
    encode_keys [] = ok []
    encode_keys (k ∷ ks) = do kb ← key_codec.encode k; rest ← encode_keys ks; ok ((k, kb) ∷ rest)

    abbrev pub count_visible : Bool → ℕ → ℕ
    count_visible gone n = if gone then n else n + 1

    unfoldable pub delete_keys : ℤ → ℕ → Tx trees → List (K × Bytes) → ℕ × Tx trees
    delete_keys now visible tx [] = (visible, tx)
    delete_keys now visible tx ((k, kb) ∷ ks) =
        delete_keys now (count_visible (expired trees tx.state k now) visible)
          (logged_delete trees format tx k kb) ks

    unfoldable pub tx_delete_range : ℤ → Tx trees → K → K → Result (ℕ × Tx trees)
    tx_delete_range now tx min max =
        if tx.done then err tx_closed else if not tx.writable then err tx_not_writable else do
          keys ← encode_keys (keys_below max (data_map.ascend tx.state.pairs min))
          ok (delete_keys now 0 tx keys)

  -- The loops of the iterators: expired keys are passed over.
  unfoldable pub unexpired : DbState trees → ℤ → List (K × V) → List (K × V)
  unexpired s now [] = []
  unexpired s now ((k, v) ∷ l) =
      let rest = unexpired s now l in if expired trees s k now then rest else (k, v) ∷ rest

  unfoldable pub remaining : ℤ → Option ℤ → Option ℤ
  remaining now none = none
  remaining now (some deadline) = if leb_ℤ deadline now then none else some (deadline -ℤ now)

  module _ (now : ℤ) (tx : Tx trees) where
    unfoldable pub tx_get : K → Option V
    tx_get key = if tx.done then none else get trees tx.state key now

    unfoldable pub tx_contains : K → Bool
    unfolding tx_get
    tx_contains key = elim (tx_get key) [ none ↦ false | some _ ↦ true ]

    unfoldable pub tx_ttl : K → Option ℤ
    unfolding remaining
    tx_ttl key = if tx.done then none else remaining now (ttl_map.get tx.state.ttl key)

    unfoldable pub tx_len : ℕ
    tx_len = if tx.done then 0 else data_map.len tx.state.pairs

    unfoldable pub tx_live_len : ℤ
    tx_live_len = if tx.done then pos 0 else live_len trees tx.state now

    abbrev visible_in : List (K × V) → List (K × V)
    visible_in l = if tx.done then [] else unexpired tx.state now l

    unfoldable pub tx_all : List (K × V)
    tx_all = visible_in (data_map.items tx.state.pairs)

    unfoldable pub tx_keys : List K
    tx_keys = map (λ p. p.0) (visible_in (data_map.items tx.state.pairs))

    unfoldable pub tx_values : List V
    tx_values = map (λ p. p.1) (visible_in (data_map.items tx.state.pairs))

    unfoldable pub tx_backward : List (K × V)
    tx_backward = visible_in (data_map.backward tx.state.pairs)

    unfoldable pub tx_descend : K → List (K × V)
    tx_descend from = visible_in (data_map.descend tx.state.pairs from)

    unfoldable pub tx_ascend : K → List (K × V)
    tx_ascend from = visible_in (data_map.ascend tx.state.pairs from)
