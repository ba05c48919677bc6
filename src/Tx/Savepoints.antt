-- ===== src/Tx/Savepoints.antt =====
-- savepoint.go
pub mod Laws
use btypedb.Prelude.{
  ℕ, zero, suc, ◌+◌, Bool, true, false, Option, none, some, List, [], ◌∷◌, ◌++◌, Result, ok, err,
  ◌>>=◌, tx_closed, savepoint_invalid, ◌==◌, if◌then◌else◌, length, take, drop, get_elem?, modify,
}
use btypedb.Prelude.Order.{Order}
use btypedb.State.{Trees}
use btypedb.Tx.{Tx, Savepoint}

-- The last index of a number in the stack: the loop of `findSave` from the end.
unfoldable pub last_index : ℕ → List ℕ → Option ℕ
last_index sp [] = none
last_index sp (x ∷ xs) = elim (last_index sp xs) [
  | some i ↦ some (suc i)
  | none ↦ if x == sp then some 0 else none
]

module _ {K : Type 0} {o : Order K} {V : Type 0} (trees : Trees o V) where
  unfoldable pub savepoint : Tx trees → Result (ℕ × Tx trees)
  savepoint tx =
      let sp = length tx.marks in
      if tx.done
      then err tx_closed
      else ok (
        sp,
        record tx {
          marks =
              tx.marks
              ++ (record {
                state = tx.state;
                pending_len = length tx.pending;
                nops = tx.nops;
                active = true;
              }
                  ∷ []);
          saves = tx.saves ++ (sp ∷ []);
        },
      )

  abbrev or_invalid : Option ℕ → Result ℕ
  or_invalid none = err savepoint_invalid
  or_invalid (some i) = ok i

  -- A number that the transaction did not give out stands for another's savepoint.
  abbrev pub is_inactive : Tx trees → ℕ → Bool
  is_inactive tx sp = elim (get_elem? tx.marks sp) [
    | none ↦ false
    | some mark ↦ if mark.active then false else true
  ]

  -- `none` is a nil pointer.
  unfoldable pub find_save : Tx trees → Option ℕ → Result ℕ
  find_save tx none = if tx.done then err tx_closed else err savepoint_invalid
  find_save tx (some sp) =
      if tx.done
      then err tx_closed
      else if is_inactive tx sp
      then err savepoint_invalid
      else or_invalid (last_index sp tx.saves)

  abbrev deactivate_one : List (Savepoint trees) → ℕ → List (Savepoint trees)
  deactivate_one marks sp = modify marks sp (λ m. record m { active = false })

  unfoldable pub deactivate : List (Savepoint trees) → List ℕ → List (Savepoint trees)
  deactivate marks [] = marks
  deactivate marks (sp ∷ sps) = deactivate (deactivate_one marks sp) sps

  abbrev pub rolled_back : Tx trees → ℕ → Savepoint trees → Tx trees
  rolled_back tx i mark = record tx {
    marks = deactivate tx.marks (drop (i + 1) tx.saves);
    state = mark.state;
    saves = take (i + 1) tx.saves;
    pending = take mark.pending_len tx.pending;
    nops = mark.nops;
  }

  -- The stack holds only numbers that were given out, so the mark is there.
  abbrev roll_back_at : Tx trees → ℕ → Option (Savepoint trees) → Result (Tx trees)
  roll_back_at tx i none = err savepoint_invalid
  roll_back_at tx i (some mark) = ok (rolled_back tx i mark)

  abbrev mark_of : Tx trees → Option ℕ → Option (Savepoint trees)
  mark_of tx none = none
  mark_of tx (some sp) = get_elem? tx.marks sp

  unfoldable pub rollback_to : Tx trees → Option ℕ → Result (Tx trees)
  unfolding find_save deactivate last_index
  rollback_to tx sp = do i ← find_save tx sp; roll_back_at tx i (mark_of tx sp)

  unfoldable pub release_mark : Tx trees → Option ℕ → Result (Tx trees)
  unfolding find_save deactivate last_index
  release_mark tx sp = do
    i ← find_save tx sp
    ok (record tx { marks = deactivate tx.marks (drop i tx.saves); saves = take i tx.saves })

  unfoldable pub release_saves : Tx trees → Tx trees
  unfolding deactivate
  release_saves tx = record tx { marks = deactivate tx.marks tx.saves; saves = [] }
