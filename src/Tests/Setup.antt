-- ===== src/Tests/Setup.antt =====
-- A small database: numbers below 2 ^ 64 as keys, bytes as values, and no encryption.
use btypedb.Prelude.{
  ℕ, ◌^◌, ◌<◌, ◌≡◌, refl, true, false, none, List, [], ◌∷◌, ok, err, encode_failure, ltb,
  if◌then◌else◌, Bool-cases, inl, inr, arith, All,
}
use btypedb.Prelude.Int.{ℤ, pos}
use btypedb.Prelude.Order.{IsExact, ℕ_order, compare_exact}
use btypedb.Bytes.{Bytes, put_le, get_le, get_le-put_le}
use btypedb.Btype.Sequences.{seq_map, seq_table}
use btypedb.Codec.{Codec, RoundTrips, bytes_codec}
use btypedb.State.Entries.{exp_order, index_order}
use btypedb.State.{Trees, empty_state}
use btypedb.Db.Apply.{Format}
use btypedb.Db.Handle.{sync_always, wrote, Io, Options, Db}
use btypedb.Encrypt.{log_header}
use btypedb.Wal.Record.{WalRecord, Fits}
use btypedb.Wal.Replay.Groups.{IsMember, IsGroup}

abbrev pub trees : Trees ℕ_order Bytes
trees = record {
  data_map = seq_map ℕ_order Bytes;
  ttl_map = seq_map ℕ_order ℤ;
  exp_table = seq_table (exp_order ℕ_order);
  idx_table = λ compare. seq_table (index_order ℕ_order compare);
}

pub ℕ_order-IsExact : IsExact ℕ_order
unfolding ℕ_order
ℕ_order-IsExact = compare_exact

abbrev pub number_codec : Codec ℕ
number_codec = record {
  encode = λ n. if ltb n (2 ^ 64) then ok (put_le 8 n) else err encode_failure;
  decode = λ b. ok (get_le b);
}

pub number_codec-RoundTrips : RoundTrips number_codec
number_codec-RoundTrips n b e = elim (Bool-cases (ltb n (2 ^ 64))) [
  | inl small ↦
      let same : put_le 8 n ≡ b = cc (rw small at e) in
      let room : n < 2 ^ 64 = ground arith in rw (← same, get_le-put_le 8 n room)
  | inr large ↦ cc (rw large at e)
]

pub bytes_codec-RoundTrips : RoundTrips bytes_codec
unfolding bytes_codec
bytes_codec-RoundTrips t b e = cc e

abbrev pub format : Format ℕ Bytes
format = record { key_codec = number_codec; val_codec = bytes_codec; cipher = none }

abbrev pub always : Options
always = record {
  policy = sync_always;
  auto_compact = true;
  compact_min_size = pos 1000;
  compact_growth_pct = pos 100;
}

-- A new database, its header on the disk.
abbrev pub new_db : Db trees
new_db = record {
  options = always;
  state = empty_state trees;
  file = record { content = log_header; durable = 16 };
  wal_size = 16;
  base_size = 16;
  file_epoch = 0;
  append_seq = 0;
  is_closed = false;
  compacting = false;
  write_err = none;
  sync_err = none;
  compact_err = none;
  sweep_err = none;
  gsync = record { synced = 0; syncing = false; failure = none };
  writer_held = false;
}

abbrev pub good_io : Io
good_io = record { rand = none; write = wrote; sync_ok = true }

-- A record that sets the key 1.
abbrev pub one_set : WalRecord
one_set = record { op = 1; key = put_le 8 1; val = 7 ∷ 8 ∷ [] }

abbrev pub one_delete : WalRecord
one_delete = record { op = 2; key = put_le 8 1; val = [] }

pub one_set-Fits : Fits one_set
unfolding put_le
one_set-Fits = record {
  op_lo = omega arith;
  op_hi = omega arith;
  key_fits = omega arith;
  val_fits = omega arith;
}

pub one_set-IsMember : IsMember one_set
one_set-IsMember = record { fits = one_set-Fits; not_batch = refl }

pub one_delete-IsMember : IsMember one_delete
unfolding put_le
one_delete-IsMember = record {
  fits = record {
    op_lo = omega arith;
    op_hi = omega arith;
    key_fits = omega arith;
    val_fits = omega arith;
  };
  not_batch = refl;
}

-- Two commits: of one record, and of two.
abbrev pub commits : List (List WalRecord)
commits = (one_set ∷ []) ∷ (one_set ∷ one_delete ∷ []) ∷ []

pub commits-IsGroup : All IsGroup commits
commits-IsGroup = (
  record { some_record = omega arith; countable = omega arith; members = (one_set-IsMember, tt) },
  (
    record {
      some_record = omega arith;
      countable = omega arith;
      members = (one_set-IsMember, (one_delete-IsMember, tt));
    },
    tt,
  ),
)
