-- ===== src/Tx/Savepoints/Laws.antt =====
-- A savepoint and the roll back to it.
use btypedb.Prelude.{
  ℕ, suc, ◌+◌, ◌≡◌, refl, ap, ◌∙◌, sym, true, false, Option, none, some, List, [], ◌∷◌, ◌++◌, ok,
  err, tx_closed, ==_refl, length, take, get_elem?, get_elem?-append_last, arith,
  take-length_append,
}
use btypedb.Prelude.Order.{Order}
use btypedb.Bytes.{Bytes}
use btypedb.State.{Trees}
use btypedb.Tx.{Tx, Savepoint}
use btypedb.Tx.Savepoints.{
  last_index, is_inactive, savepoint, find_save, rollback_to, release_mark, rolled_back,
}

last_index-append :
    (sp : ℕ) (xs ys : List ℕ)
    → last_index sp ys ≡ none
    → last_index sp (xs ++ (sp ∷ ys)) ≡ some (length xs)
unfolding last_index
last_index-append sp [] ys h = rw (h, ==_refl sp)
last_index-append sp (x ∷ xs) ys h = rw (last_index-append sp xs ys h)

module _ {K : Type 0} {o : Order K} {V : Type 0} (trees : Trees o V) where
  -- What a transaction may have become since it made the savepoint `sp`: more was written, and more
  -- savepoints were made, released or rolled back, but not `sp`.
  pub record Since (tx tx2 : Tx trees) (sp : ℕ) : Type 0 where
    pub written : Bytes
    pub later : List ℕ
    pub pending_eq : tx2.pending ≡ tx.pending ++ written
    pub saves_eq : tx2.saves ≡ tx.saves ++ (sp ∷ later)
    pub not_later : last_index sp later ≡ none
    pub still_open : tx2.done ≡ false

  module _ (tx : Tx trees) (h : tx.done ≡ false) where
    abbrev mark : Savepoint trees
    mark = record {
      state = tx.state;
      pending_len = length tx.pending;
      nops = tx.nops;
      active = true;
    }

    savepoint-mark :
        (sp : ℕ) (tx1 : Tx trees)
        → savepoint trees tx ≡ ok (sp, tx1)
        → (sp ≡ length tx.marks) × (get_elem? tx1.marks sp ≡ some mark)
    unfolding savepoint
    savepoint-mark sp tx1 e =
        let e' = rw h at e in
        let made : length tx.marks ≡ sp = ground (arith, e') in
        let marks : tx1.marks ≡ tx.marks ++ (mark ∷ []) = cc e' in
        (sym made, rw (marks, ← made) (get_elem?-append_last tx.marks mark))

    -- Rolling back to a savepoint succeeds, however much was written and however many savepoints
    -- were made since: the state, the pending bytes and the number of operations are those of the
    -- moment it was made, and the savepoint stays on the stack, the last of it.
    pub rollback_to-savepoint :
        (sp : ℕ) (tx1 tx2 : Tx trees)
        → savepoint trees tx ≡ ok (sp, tx1)
        → Since tx tx2 sp
        → get_elem? tx2.marks sp ≡ get_elem? tx1.marks sp
        → (tx3 : Tx trees) × (rollback_to trees tx2 (some sp) ≡ ok tx3)
          × (tx3.state ≡ tx.state)
          × (tx3.pending ≡ tx.pending)
          × (tx3.nops ≡ tx.nops)
          × (tx3.saves ≡ tx.saves ++ (sp ∷ []))
    unfolding rollback_to find_save
    rollback_to-savepoint sp tx1 tx2 e s kept =
        let (made, there) = savepoint-mark sp tx1 e in
        let at_mark : get_elem? tx2.marks sp ≡ some mark = kept ∙ there in
        let found : last_index sp tx2.saves ≡ some (length tx.saves) =
          rw s.saves_eq (last_index-append sp tx.saves s.later s.not_later) in
        (
          rolled_back trees tx2 (length tx.saves) mark,
          rw (s.still_open, is_inactive, at_mark, found),
          refl,
          rw s.pending_eq (take-length_append tx.pending s.written),
          refl,
          rw s.saves_eq (take-one_more tx.saves),
        )
      where
        take-one_more :
            (xs : List ℕ) → take (length xs + 1) (xs ++ (sp ∷ s.later)) ≡ xs ++ (sp ∷ [])
        take-one_more [] = refl
        take-one_more (x ∷ xs) =
            let e : length (x ∷ xs) + 1 ≡ suc (length xs + 1) = omega arith in
            rw e (ap (λ l. x ∷ l) (take-one_more xs))

  -- Nothing works on a finished transaction: each operation says so and changes nothing.
  pub finished-savepoints :
      (tx : Tx trees) (sp : Option ℕ)
      → tx.done ≡ true
      → (savepoint trees tx ≡ err tx_closed)
        × (rollback_to trees tx sp ≡ err tx_closed)
        × (release_mark trees tx sp ≡ err tx_closed)
  unfolding savepoint rollback_to release_mark find_save
  finished-savepoints tx none h = (rw h, rw h, rw h)
  finished-savepoints tx (some sp) h = (rw h, rw h, rw h)
