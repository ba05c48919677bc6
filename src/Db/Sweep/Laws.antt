-- ===== src/Db/Sweep/Laws.antt =====
-- A sweep removes nothing that could be seen.
use btypedb.Prelude.{
  ◌≡◌, ◌∙◌, refl, ap, sym, Bool, true, false, Option, none, some, List, [], ◌∷◌, ok, >>=-eq-ok,
  arith, Bool-cases, Option-cases, Result-cases, inl, inr, ◌⊎◌, if◌then◌else◌, err-ne-ok,
}
use btypedb.Prelude.Int.{ℤ, ltb_ℤ, leb_ℤ}
use btypedb.Prelude.Order.{Order, IsExact, same, eq_of_is_eq}
use btypedb.State.{Trees, DbState, get, delete}
use btypedb.State.Reads.{ttl_of, val_of}
use btypedb.State.Visible.{get-delete, get-shown}
use btypedb.Db.Apply.{Format}
use btypedb.Tx.{Tx, tx_delete}
use btypedb.Db.Sweep.{sweep_one, sweep_keys}

module _ {K : Type 0} {o : Order K} {V : Type 0} (trees : Trees o V) (format : Format K V)
    (exact : IsExact o) where
  -- A removal leaves the state, or deletes the key from it.
  tx_delete-state :
      (clock : ℤ) (tx : Tx trees) (k : K) (seen : Bool) (tx' : Tx trees)
      → tx_delete trees format clock tx k ≡ ok (seen, tx')
      → (tx'.state ≡ tx.state) ⊎ (tx'.state ≡ (delete trees tx.state k).0)
  unfolding tx_delete
  tx_delete-state clock tx k seen tx' h = elim (Bool-cases tx.done) [
    | inl over ↦ absurd (err-ne-ok (rw over at h))
    | inr open_tx ↦ elim (Bool-cases tx.writable) [
      | inr read_only ↦ absurd (err-ne-ok (rw (open_tx, read_only) at h))
      | inl writable ↦ elim (Bool-cases (trees.data_map.contains tx.state.pairs k)) [
        | inr missing ↦ inl (cc (rw (open_tx, writable, missing) at h))
        | inl there ↦
            let (kb, ke, h1) =
              >>=-eq-ok (format.key_codec.encode k) _ (rw (open_tx, writable, there) at h) in
            inr (cc h1)
      ]
    ]
  ]

  -- The value of an expired key is hidden.
  nothing :
      (v : Option V)
      → none
        ≡ (elim v as (λ x. Option V) [ none ↦ none | some w ↦ (if true then none else some w) ])
  nothing none = refl
  nothing (some v) = refl

  module _ (now moment : ℤ) (later : leb_ℤ now moment ≡ true) (j : K) where
    -- A key that is due shows nothing, so its removal does not show.
    delete_due :
        (s : DbState trees) (k : K) (deadline : ℤ)
        → ttl_of trees s k ≡ some deadline
        → ltb_ℤ now deadline ≡ false
        → get trees (delete trees s k).0 j moment ≡ get trees s j moment
    delete_due s k deadline e passed = elim (Bool-cases (same o j k)) [
      | inl here ↦
          let at_k : j ≡ k = exact j k (eq_of_is_eq (o.cmp j k) here) in
          let ttl : ttl_of trees s j ≡ some deadline = ap (ttl_of trees s) at_k ∙ e in
          let gone : leb_ℤ deadline moment ≡ true = ground (arith, passed, later) in
          rw ((get-delete trees s k j moment).0, here, get-shown trees s j moment, ttl, gone)
            (nothing (val_of trees s j))
      | inr other ↦ rw ((get-delete trees s k j moment).0, other)
    ]

    sweep_one-get :
        (clock : ℤ) (tx : Tx trees) (k : K) (tx' : Tx trees)
        → sweep_one trees format now clock tx k (ttl_of trees tx.state k) ≡ ok tx'
        → get trees tx'.state j moment ≡ get trees tx.state j moment
    sweep_one-get clock tx k tx' h = elim (Option-cases (ttl_of trees tx.state k)) [
      | inl none_set ↦ unchanged (cc (rw none_set at h))
      | inr (deadline, e) ↦ elim (Bool-cases (ltb_ℤ now deadline)) [
        | inl moved ↦ unchanged (cc (rw (e, moved) at h))
        | inr passed ↦ elim (Result-cases (tx_delete trees format clock tx k)) [
          | inr (x, failure) ↦ absurd (err-ne-ok (rw (e, passed, failure) at h))
          | inl ((seen, tx1), done) ↦
              let same_tx : tx1 ≡ tx' = cc (rw (e, passed, done) at h) in
              elim (tx_delete-state clock tx k seen tx1 done) [
                | inl same_state ↦ rw (← same_tx) (ap (λ s. get trees s j moment) same_state)
                | inr deleted ↦ rw (← same_tx) (
                    ap (λ s. get trees s j moment) deleted
                    ∙ delete_due tx.state k deadline e passed)
              ]
        ]
      ]
    ]
      where
        unchanged : tx ≡ tx' → get trees tx'.state j moment ≡ get trees tx.state j moment
        unchanged e = ap (λ (t : Tx trees). get trees t.state j moment) (sym e)

    -- A sweep that succeeds changes nothing that a read shows, of any key, at its moment or later: it
    -- removes only keys whose deadline has passed.
    pub sweep_keys-get :
        (clock : ℤ) (tx : Tx trees) (keys : List K) (tx' : Tx trees)
        → sweep_keys trees format now clock tx keys ≡ ok tx'
        → get trees tx'.state j moment ≡ get trees tx.state j moment
    unfolding sweep_keys
    sweep_keys-get clock tx [] tx' h =
        let e : tx ≡ tx' = cc h in ap (λ (t : Tx trees). get trees t.state j moment) (sym e)
    sweep_keys-get clock tx (k ∷ ks) tx' h =
        let (tx1, one, others) =
          >>=-eq-ok (sweep_one trees format now clock tx k (ttl_of trees tx.state k)) _ h in
        sweep_keys-get clock tx1 ks tx' others ∙ sweep_one-get clock tx k tx1 one
