-- ===== src/Tests/Opens.antt =====
-- The theorems on `Open`, on large records and on ranges at concrete inputs.
use btypedb.Prelude.{
  none, ℕ, ◌+◌, ◌^◌, ◌≤◌, ◌≡◌, refl, ap, true, false, some, [], ◌∷◌, ◌++◌, ok, err, corrupt, zero,
  suc, length, take, All, arith, ltb, Bool-cases, inl, inr,
}
use btypedb.Prelude.Int.{pos}
use btypedb.Prelude.Order.{ℕ_order}
use btypedb.Bytes.{Bytes, put_le, get_le, length-put_le}
use btypedb.Btype.Sorted.{find, place, remove, items_from}
use btypedb.Codec.{bytes_codec}
use btypedb.Encrypt.{header_for, open_record}
use btypedb.Wal.Record.{WalRecord, max_part_len, frame, frame_of, record_body}
use btypedb.Wal.Reader.{eof, none_left, read_record}
use btypedb.Wal.Reader.Framing.{over}
use btypedb.Wal.Reader.Oversized.{read_record-oversized}
use btypedb.Wal.Replay.Groups.{IsGroup, group_bytes, group_size, apply_all, torn_parsed, IsMember}
use btypedb.Wal.Replay.Crash.{log_of, survivors, apply_groups, total_size, parsed_past}
use btypedb.Wal.Scan.{scan_for_record}
use btypedb.Wal.Scan.Laws.{scan_for_record-finds}
use btypedb.State.{DbState, empty_state, set, expired, get}
use btypedb.Db.Apply.{apply_record}
use btypedb.Db.Handle.{wrote, Db}
use btypedb.Db.Header.{OpenIo}
use btypedb.Db.Open.{open_db}
use btypedb.Db.Open.Crash.{AllGood, open_db-crash, open_db-refuses}
use btypedb.Db.Log.{apply, IsDurableLog}
use btypedb.Tx.{tx_delete}
use btypedb.Db.Sweep.{sweep_keys}
use btypedb.Db.Sweep.Laws.{sweep_keys-get}
use btypedb.Tx.Log.{IsLogged}
use btypedb.Tx.Ranges.{tx_delete_range, keys_below, encode_keys, delete_keys}
use btypedb.Tx.RangeLog.{tx_delete_range-IsLogged}
use btypedb.Tests.Setup.{
  trees, format, always, number_codec, number_codec-RoundTrips, ℕ_order-IsExact, one_set,
  one_set-Fits, commits, commits-IsGroup,
}
use btypedb.Tests.States.{written_tx, written_tx-IsLogged, deleted_tx}

filled : ℕ → Bytes
filled zero = []
filled (suc n) = 0 ∷ filled n

length-filled : (n : ℕ) → length (filled n) ≡ n
unfolding filled
length-filled zero = refl
length-filled (suc n) = omega (arith, length-filled n)

abbrev large : WalRecord
large = record { op = 1; key = []; val = filled (2 ^ 30 + 1) }

read_record-oversized_example : read_record (over eof (frame_of large ++ [])) ≡ none_left
read_record-oversized_example =
    read_record-oversized eof large [] (omega (arith, length-filled (2 ^ 30 + 1)))
      (omega (arith, length-filled (2 ^ 30 + 1)))

abbrev pub quiet : OpenIo
quiet = record {
  stat = true;
  read = true;
  reset = true;
  rewind = true;
  sync = true;
  write = wrote;
  read_past = true;
  seek_records = true;
  replay_fails = none;
  stat_parsed = true;
  stat_valid = true;
  read_tail = true;
  truncate_tail = true;
  seek_end = true;
}

quiet-AllGood : AllGood quiet
quiet-AllGood = record {
  stat = refl;
  read = refl;
  seek_records = refl;
  replay_fails = refl;
  stat_parsed = refl;
  stat_valid = refl;
  read_tail = refl;
  truncate_tail = refl;
  seek_end = refl;
}

-- The first of two commits survives a cut at byte 30.
abbrev first_state : DbState trees
first_state = set trees (empty_state trees) 1 (7 ∷ 8 ∷ []) (pos 0)

first_applied :
    apply_groups (apply trees format) (empty_state trees) (survivors 30 commits) ≡ ok first_state
unfolding group_size apply_all apply_record open_record bytes_codec put_le get_le set
first_applied = refl

open_db-crash_example :
    (db : Db trees) × (open_db trees format quiet true always
        (record { content = header_for format.cipher ++ take 30 (log_of commits); durable = 0 })
      ≡ some (ok db, db.file))
    × (db.file.content ≡ header_for format.cipher ++ log_of (survivors 30 commits))
    × (db.state ≡ first_state)
    × IsDurableLog trees format (empty_state trees) (header_for format.cipher) db
unfolding set find
open_db-crash_example =
    open_db-crash trees format quiet quiet-AllGood always commits 30 0 true first_state tt
      commits-IsGroup first_applied (inl refl)

-- A record whose value holds a framed record, cut behind its value.
abbrev carrier : WalRecord
carrier = record { op = 1; key = put_le 8 1; val = frame_of one_set }

abbrev front : Bytes
front = 1 ∷ 8 ∷ 0 ∷ 0 ∷ 0 ∷ 23 ∷ 0 ∷ 0 ∷ 0 ∷ put_le 8 1

carrier_cut : take 40 (log_of ((carrier ∷ []) ∷ [])) ≡ front ++ (frame_of one_set ++ [])
unfolding group_bytes frame record_body put_le
carrier_cut = refl

carrier_parsed :
    total_size (survivors 40 ((carrier ∷ []) ∷ [])) + parsed_past 40 ((carrier ∷ []) ∷ []) ≡ 0
unfolding group_size torn_parsed frame record_body put_le
carrier_parsed = refl

carrier_applied :
    apply_groups (apply trees format) (empty_state trees) (survivors 40 ((carrier ∷ []) ∷ []))
    ≡ ok (empty_state trees)
unfolding group_size frame record_body put_le
carrier_applied = refl

carrier-IsMember : IsMember carrier
unfolding frame record_body put_le
carrier-IsMember = record {
  fits = record {
    op_lo = omega arith;
    op_hi = omega arith;
    key_fits = omega arith;
    val_fits = omega arith;
  };
  not_batch = refl;
}

carrier-IsGroup : All IsGroup ((carrier ∷ []) ∷ [])
carrier-IsGroup = (
  record { some_record = omega arith; countable = omega arith; members = (carrier-IsMember, tt) },
  tt,
)

found : (n : ℕ) × (scan_for_record (take 40 (log_of ((carrier ∷ []) ∷ []))) ≡ some n)
found = let (n, e, _) = scan_for_record-finds front one_set [] one_set-Fits in (n, rw carrier_cut e)

cut_length : length (take 40 (log_of ((carrier ∷ []) ∷ []))) ≡ 40
unfolding group_bytes frame record_body put_le
cut_length = refl

open_db-refuses_example :
    open_db trees format quiet false always (record {
      content = header_for format.cipher ++ take 40 (log_of ((carrier ∷ []) ∷ []));
      durable = 0;
    })
    ≡ some (
      err corrupt,
      record {
        content = header_for format.cipher ++ take 40 (log_of ((carrier ∷ []) ∷ []));
        durable = 0;
      },
    )
open_db-refuses_example =
    open_db-refuses trees format quiet quiet-AllGood always ((carrier ∷ []) ∷ []) 40 0 false
      (empty_state trees) found.0 tt carrier-IsGroup carrier_applied refl
      (omega (arith, carrier_parsed, cut_length)) (rw carrier_parsed found.1)

small_keys : (k : ℕ) (kb : Bytes) → number_codec.encode k ≡ ok kb → length kb ≤ max_part_len
small_keys k kb e = elim (Bool-cases (ltb k (2 ^ 64))) [
  | inl small ↦
      let same : put_le 8 k ≡ kb = cc (rw small at e) in
      omega (arith, ap length same, length-put_le 8 k)
  | inr large ↦ cc (rw large at e)
]

one_removed : tx_delete_range trees format (pos 50) written_tx 0 10 ≡ ok (1, deleted_tx)
unfolding tx_delete_range keys_below encode_keys delete_keys expired ℕ_order find set place remove
    items_from
one_removed = refl

one_key : length (keys_below trees 10 (trees.data_map.ascend written_tx.state.pairs 0)) ≡ 1
unfolding keys_below ℕ_order find set place items_from
one_key = refl

tx_delete_range-IsLogged_example : IsLogged trees format (empty_state trees) deleted_tx
tx_delete_range-IsLogged_example =
    tx_delete_range-IsLogged trees format number_codec-RoundTrips (empty_state trees) (pos 50)
      written_tx 0 10 1 deleted_tx small_keys (omega (arith, one_key)) written_tx-IsLogged
      one_removed

swept : sweep_keys trees format (pos 150) (pos 160) written_tx (4 ∷ []) ≡ ok deleted_tx
unfolding sweep_keys tx_delete expired ℕ_order find set place remove
swept = refl

sweep_keys-get_example :
    get trees deleted_tx.state 4 (pos 200) ≡ get trees written_tx.state 4 (pos 200)
sweep_keys-get_example =
    sweep_keys-get trees format ℕ_order-IsExact (pos 150) (pos 200) refl 4 (pos 160) written_tx
      (4 ∷ []) deleted_tx swept
