-- ===== src/Db/Replication/Growth.antt =====
-- Between compactions the log only grows: the bytes up to `walSize` stay, whatever is written.
use btypedb.Prelude.{
  ℕ, ◌+◌, ◌≤◌, ◌≡◌, refl, ◌∙◌, sym, ap, Bool, length, take, ◌++◌, take-append_le, take-take,
  length-append, arith,
}
use btypedb.Prelude.Order.{Order}
use btypedb.Bytes.{Bytes}
use btypedb.State.{Trees}
use btypedb.Db.Handle.{
  Db, WriteOutcome, wrote, cut_at, maybe_auto_compact, write_log, appended, torn_append,
  wait_durable, lead, sync, background_sync, mark_durable,
}

module _ {K : Type 0} {o : Order K} {V : Type 0} (trees : Trees o V) where
  -- The file reaches to `walSize` at least.
  abbrev pub HasSize : Db trees → Type 0
  HasSize db = db.wal_size ≤ length db.file.content

  pub record Grows (db db' : Db trees) : Type 0 where
    pub epoch_eq : db'.file_epoch ≡ db.file_epoch
    pub size_le : db.wal_size ≤ db'.wal_size
    pub prefix_eq : take db.wal_size db'.file.content ≡ take db.wal_size db.file.content
    pub has_size : HasSize db'

  pub Grows-trans : (a b c : Db trees) → Grows a b → Grows b c → Grows a c
  Grows-trans a b c g h = record {
    epoch_eq = h.epoch_eq ∙ g.epoch_eq;
    size_le = omega (arith, g.size_le, h.size_le);
    prefix_eq =
        sym (take-take a.wal_size b.wal_size c.file.content g.size_le)
        ∙ ap (take a.wal_size) h.prefix_eq
        ∙ take-take a.wal_size b.wal_size b.file.content g.size_le
        ∙ g.prefix_eq;
    has_size = h.has_size;
  }

  -- A step that leaves the file alone.
  pub record SameFile (db db' : Db trees) : Type 0 where
    pub same_epoch : db'.file_epoch ≡ db.file_epoch
    pub same_size : db'.wal_size ≡ db.wal_size
    pub same_content : db'.file.content ≡ db.file.content

  pub SameFile-Grows : (db db' : Db trees) → HasSize db → SameFile db db' → Grows db db'
  SameFile-Grows db db' h s = record {
    epoch_eq = s.same_epoch;
    size_le = omega (arith, s.same_size);
    prefix_eq = rw s.same_content;
    has_size = rw (s.same_content, s.same_size) h;
  }

  maybe_auto_compact-SameFile : (db : Db trees) → SameFile db (maybe_auto_compact trees db)
  unfolding maybe_auto_compact
  maybe_auto_compact-SameFile db = record {
    same_epoch = ground arith;
    same_size = ground arith;
    same_content = ground arith;
  }

  wait_durable-SameFile :
      (b : Bool) (seq : ℕ) (db : Db trees) → SameFile db (wait_durable trees b seq db).1
  unfolding wait_durable lead
  wait_durable-SameFile b seq db = record {
    same_epoch = ground arith;
    same_size = ground arith;
    same_content = ground arith;
  }

  pub sync-SameFile : (b : Bool) (db : Db trees) → SameFile db (sync trees b db).1
  unfolding sync mark_durable
  sync-SameFile b db = record {
    same_epoch = ground arith;
    same_size = ground arith;
    same_content = ground arith;
  }

  pub background_sync-SameFile :
      (b : Bool) (db : Db trees) → SameFile db (background_sync trees b db)
  unfolding background_sync
  background_sync-SameFile b db = record {
    same_epoch = ground arith;
    same_size = ground arith;
    same_content = ground arith;
  }

  append-Grows :
      (db db' : Db trees) (bytes : Bytes)
      → HasSize db
      → db'.file_epoch ≡ db.file_epoch
      → db'.file.content ≡ db.file.content ++ bytes
      → db.wal_size ≤ db'.wal_size
      → db'.wal_size ≤ db.wal_size + length bytes
      → Grows db db'
  append-Grows db db' bytes h epoch longer lo hi = record {
    epoch_eq = epoch;
    size_le = lo;
    prefix_eq = rw longer (take-append_le db.wal_size db.file.content bytes h);
    has_size = omega (arith, ap length longer, length-append db.file.content bytes);
  }

  pub write_log-Grows :
      (w : WriteOutcome) (db : Db trees) (buf : Bytes)
      → HasSize db
      → Grows db (write_log trees w db buf).1
  unfolding write_log
  write_log-Grows wrote db buf h =
      let one =
        append-Grows db (appended trees db buf) buf h refl refl (omega arith) (omega arith) in
      Grows-trans db (appended trees db buf) (maybe_auto_compact trees (appended trees db buf)) one
        (SameFile-Grows (appended trees db buf) (maybe_auto_compact trees (appended trees db buf))
          one.has_size (maybe_auto_compact-SameFile (appended trees db buf)))
  write_log-Grows (cut_at n) db buf h =
      append-Grows db (torn_append trees db (take n buf)) (take n buf) h refl refl (omega arith)
        (omega arith)

  -- What comes behind an append: a new state, and the wait.
  pub waited-Grows :
      (b : Bool) (seq : ℕ) (db db1 db2 : Db trees)
      → Grows db db1
      → SameFile db1 db2
      → Grows db (wait_durable trees b seq db2).1
  waited-Grows b seq db db1 db2 g s =
      let two = SameFile-Grows db1 db2 g.has_size s in
      Grows-trans db db1 (wait_durable trees b seq db2).1 g (
        Grows-trans db1 db2 (wait_durable trees b seq db2).1 two (
          SameFile-Grows db2 (wait_durable trees b seq db2).1 two.has_size
            (wait_durable-SameFile b seq db2)))

  abbrev pub unmoved : (db : Db trees) → SameFile db db
  unmoved db = record { same_epoch = refl; same_size = refl; same_content = refl }
