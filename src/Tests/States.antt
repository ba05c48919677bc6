-- ===== src/Tests/States.antt =====
-- The theorems on states, indexes and transactions at concrete inputs.
use btypedb.State.Changes.{Change, run}
use btypedb.State.Invariants.{run-IsConsistent, run-IsIndexed}
use btypedb.Prelude.{
  List, ℕ, ◌+◌, ◌≤◌, ◌≡◌, refl, true, none, [], ◌∷◌, ok, length, arith, length-append,
}
use btypedb.Prelude.Int.{pos, to_uint64}
use btypedb.Prelude.Order.{Order, ℕ_order, on}
use btypedb.Bytes.{Bytes, put_le, length-put_le}
use btypedb.State.{DbState, empty_state, set, expired}
use btypedb.Btype.Sorted.{find, place, remove}
use btypedb.State.Invariant.{IsConsistent, empty_state-IsConsistent, set-IsConsistent}
use btypedb.State.Indexes.{IsIndexed}
use btypedb.Wal.Record.{frame, append_record, prepend_deadline, max_part_len, length-frame_of}
use btypedb.Codec.{bytes_codec}
use btypedb.Encrypt.{append_sealed_record}
use btypedb.Tx.{Tx, new_tx, set_internal, tx_delete, logged_set, logged_delete}
use btypedb.Tx.Log.{IsLogged, new_tx-IsLogged, WritesOne, set_internal-WritesOne}
use btypedb.Tests.Setup.{
  trees, format, number_codec-RoundTrips, bytes_codec-RoundTrips, ℕ_order-IsExact,
}

abbrev pub value_seven : Bytes
value_seven = 7 ∷ []

-- The key 4, until the moment 100.
abbrev timed : DbState trees
timed = set trees (empty_state trees) 4 value_seven (pos 100)

timed-IsConsistent : IsConsistent trees timed
timed-IsConsistent =
    set-IsConsistent trees ℕ_order-IsExact (empty_state trees) 4 (empty_state-IsConsistent trees)
      value_seven (pos 100)

abbrev two_changes : List (Change ℕ Bytes)
two_changes = Change.deletes 4 ∷ Change.sets 5 value_seven (pos 0) ∷ []

run-IsConsistent_example : IsConsistent trees (run trees timed two_changes)
run-IsConsistent_example =
    run-IsConsistent trees ℕ_order-IsExact two_changes timed timed-IsConsistent

-- An index that compares the lengths of the values.
abbrev by_length : Order (ℕ × Bytes)
by_length = on (λ p. length p.1) ℕ_order

abbrev indexed : DbState trees
indexed = record (empty_state trees) {
  idx = ("length", record { compare = by_length; tree = (trees.idx_table by_length).new }) ∷ [];
}

indexed-IsIndexed : IsIndexed trees indexed
unfolding find
indexed-IsIndexed = ((λ k v. refl), tt)

run-IsIndexed_example : IsIndexed trees (run trees indexed two_changes)
run-IsIndexed_example = run-IsIndexed trees ℕ_order-IsExact two_changes indexed indexed-IsIndexed

-- A transaction, before and after its first write.
abbrev pub fresh_tx : Tx trees
fresh_tx = new_tx trees (empty_state trees) true

abbrev pub first_record : Bytes
first_record = frame 4 (put_le 8 4) (prepend_deadline 100 value_seven)

abbrev pub written_tx : Tx trees
written_tx = logged_set trees format fresh_tx 4 value_seven (pos 100) first_record

pub first_write : set_internal trees format none fresh_tx 4 value_seven (pos 100) ≡ ok written_tx
unfolding set_internal append_sealed_record append_record to_uint64 bytes_codec
first_write = refl

short_record : length written_tx.pending ≤ length fresh_tx.pending + max_part_len
unfolding prepend_deadline put_le
short_record = omega (
  arith,
  length-frame_of (record { op = 4; key = put_le 8 4; val = prepend_deadline 100 value_seven }),
)

pub written_tx-IsLogged : IsLogged trees format (empty_state trees) written_tx
written_tx-IsLogged =
    (set_internal-WritesOne trees format (empty_state trees) fresh_tx
      (new_tx-IsLogged trees format (empty_state trees) true) (omega arith) number_codec-RoundTrips
      none 4 value_seven (pos 100) written_tx bytes_codec-RoundTrips tt (omega arith) first_write
      short_record).logged

abbrev pub deleted_tx : Tx trees
deleted_tx = logged_delete trees format written_tx 4 (put_le 8 4)

first_removal : tx_delete trees format (pos 50) written_tx 4 ≡ ok (true, deleted_tx)
unfolding tx_delete expired ℕ_order find set place remove
first_removal = refl

short_removal : length deleted_tx.pending ≤ length written_tx.pending + max_part_len
unfolding append_record
short_removal = omega (
  arith,
  length-append written_tx.pending (frame 2 (put_le 8 4) []),
  length-put_le 8 4,
  length-frame_of (record { op = 2; key = put_le 8 4; val = [] }),
)

set_internal-WritesOne_example :
    WritesOne trees format
      (empty_state trees)
      fresh_tx
      (new_tx-IsLogged trees format (empty_state trees) true)
      written_tx
      4
      (set trees (empty_state trees) 4 value_seven (pos 100))
set_internal-WritesOne_example =
    set_internal-WritesOne trees format (empty_state trees) fresh_tx
      (new_tx-IsLogged trees format (empty_state trees) true) (omega arith) number_codec-RoundTrips
      none 4 value_seven (pos 100) written_tx bytes_codec-RoundTrips tt (omega arith) first_write
      short_record
