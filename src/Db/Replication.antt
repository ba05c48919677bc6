-- ===== src/Db/Replication.antt =====
-- replication.go: the size of the log, and byte ranges of it.
pub mod Ranges
pub mod Growth
pub mod Steps
pub mod Follower
use btypedb.Prelude.{
  ℕ, ◌-◌, ◌||◌, Bool, true, false, not, Option, none, some, [], Result, ok, err, Error, closed,
  bad_argument, epoch_changed, io_failure, ltb, ◌==◌, if◌then◌else◌, take, drop,
}
use btypedb.Prelude.Int.{ℤ, pos, negsuc, ltb_ℤ}
use btypedb.Prelude.Order.{Order}
use btypedb.Bytes.{Bytes}
use btypedb.State.{Trees}
use btypedb.Db.Handle.{Db, WriteOutcome, wrote, cut_at}

-- What a copy has put into the writer, with the error that ended it. The count that is returned is
-- the number of these bytes.
pub record Copied : Type 0 where
  pub sent : Bytes
  pub failure : Option Error

abbrev pub refused : Error → Copied
refused e = record { sent = []; failure = some e }

-- `io.Copy` of a section: the section ends where the file ends, and a failure, of the read or of the
-- writer, may come behind some of the bytes.
unfoldable pub copy_section : WriteOutcome → Bytes → ℕ → ℕ → Copied
copy_section wrote content from n = record { sent = take n (drop from content); failure = none }
copy_section (cut_at i) content from n = record {
  sent = take i (take n (drop from content));
  failure = some io_failure;
}

abbrev pub min_ℕ : ℕ → ℕ → ℕ
min_ℕ a b = if ltb b a then b else a

module _ {K : Type 0} {o : Order K} {V : Type 0} (trees : Trees o V) where
  unfoldable pub log_state : Db trees → Result (ℕ × ℕ)
  log_state db = if db.is_closed then err closed else ok (db.file_epoch, db.wal_size)

  -- A range that begins and ends at natural numbers.
  unfoldable pub read_range : WriteOutcome → Db trees → ℕ → ℕ → ℕ → Copied
  unfolding copy_section
  read_range w db epoch from max =
      if db.is_closed
      then refused closed
      else if not (db.file_epoch == epoch)
      then refused epoch_changed
      else if ltb db.wal_size from
      then refused bad_argument
      else if min_ℕ max (db.wal_size - from) == 0
      then record { sent = []; failure = none }
      else copy_section w db.file.content from (min_ℕ max (db.wal_size - from))

  unfoldable pub read_log_range : WriteOutcome → Db trees → ℕ → ℤ → ℤ → Copied
  unfolding read_range
  read_log_range w db epoch (pos from) (pos max) = read_range w db epoch from max
  read_log_range w db epoch from max = refused bad_argument
