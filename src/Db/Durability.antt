-- ===== src/Db/Durability.antt =====
-- What an acknowledgement means: the sync of groupcommit.go covers what was appended.
use btypedb.Prelude.{
  ℕ, ◌+◌, ◌^◌, ◌≤◌, ◌<◌, ◌≡◌, Bool, none, some, ok, length, take, length-append, arith,
}
use btypedb.Prelude.Order.{Order}
use btypedb.Bytes.{Bytes}
use btypedb.State.{Trees}
use btypedb.Db.Handle.{
  Db, sync_always, WriteOutcome, wrote, cut_at, appended, maybe_auto_compact, write_log,
  wait_durable, wait_loop, lead,
}

module _ {K : Type 0} {o : Order K} {V : Type 0} (trees : Trees o V) where
  -- A sync that is counted has covered every byte that was appended under its number.
  pub record IsSynced (db : Db trees) : Type 0 where
    pub seq_le : db.gsync.synced ≤ db.append_seq
    pub size_le : db.wal_size ≤ length db.file.content
    pub covered : db.append_seq ≤ db.gsync.synced → db.wal_size ≤ db.file.durable

  appended-IsSynced :
      (db : Db trees) (buf : Bytes)
      → db.append_seq + 1 < 2 ^ 64
      → IsSynced db
      → IsSynced (appended trees db buf)
  appended-IsSynced db buf room s = record {
    seq_le = omega (arith, s.seq_le);
    size_le = omega (arith, s.size_le, length-append db.file.content buf);
    covered = λ h. absurd (omega (arith, s.seq_le));
  }

  maybe_auto_compact-IsSynced :
      (db : Db trees) → IsSynced db → IsSynced (maybe_auto_compact trees db)
  unfolding maybe_auto_compact
  maybe_auto_compact-IsSynced db s = record {
    seq_le = ground (arith, s.seq_le);
    size_le = ground (arith, s.size_le);
    covered = λ h. ground (arith, s.covered);
  }

  -- The append that a write makes, and its failure.
  pub write_log-IsSynced :
      (w : WriteOutcome) (db : Db trees) (buf : Bytes)
      → db.append_seq + 1 < 2 ^ 64
      → IsSynced db
      → IsSynced (write_log trees w db buf).1
  unfolding write_log
  write_log-IsSynced wrote db buf room s =
      maybe_auto_compact-IsSynced (appended trees db buf) (appended-IsSynced db buf room s)
  write_log-IsSynced (cut_at n) db buf room s = record {
    seq_le = s.seq_le;
    size_le = omega (arith, s.size_le, length-append db.file.content (take n buf));
    covered = s.covered;
  }

  lead-IsSynced : (b : Bool) (db : Db trees) → IsSynced db → IsSynced (lead trees b db)
  unfolding lead
  lead-IsSynced b db s = record {
    seq_le = ground (arith, s.seq_le);
    size_le = ground (arith, s.size_le);
    covered = λ h. ground (arith, s.covered, s.size_le);
  }

  pub wait_durable-IsSynced :
      (b : Bool) (seq : ℕ) (db : Db trees) → IsSynced db → IsSynced (wait_durable trees b seq db).1
  unfolding wait_durable
  wait_durable-IsSynced b seq db s =
      let l = lead-IsSynced b db s in
      record {
        seq_le = ground (arith, l.seq_le, s.seq_le);
        size_le = ground (arith, l.size_le, s.size_le);
        covered = λ h. ground (arith, l.covered, s.covered);
      }

  -- The loop of `waitDurable` ends within two rounds for a committer that is alone, as
  -- `wait_durable` says: after its own round it has the sync or an error to report.
  pub wait_loop-ends :
      (b : Bool) (seq : ℕ) (db : Db trees)
      → seq ≤ db.append_seq
      → db.options.policy ≡ sync_always
      → wait_loop trees 2 b seq db ≡ some (wait_durable trees b seq db)
  unfolding wait_loop wait_durable lead
  wait_loop-ends b seq db h p = ground (arith, p)

  -- An acknowledged wait under `SyncAlways` leaves the whole log on the disk.
  pub wait_durable-covered :
      (b : Bool) (db : Db trees)
      → db.options.policy ≡ sync_always
      → IsSynced db
      → (wait_durable trees b db.append_seq db).0 ≡ ok tt
      → (wait_durable trees b db.append_seq db).1.wal_size
        ≤ (wait_durable trees b db.append_seq db).1.file.durable
  unfolding wait_durable lead
  wait_durable-covered b db p s h = ground (arith, p, h, s.covered, s.size_le, s.seq_le)

  pub wait_durable-write_err :
      (b : Bool) (db : Db trees)
      → db.write_err ≡ none
      → (wait_durable trees b db.append_seq db).0 ≡ ok tt
      → (wait_durable trees b db.append_seq db).1.write_err ≡ none
  unfolding wait_durable lead
  wait_durable-write_err b db clean h = ground (arith, clean, h)
