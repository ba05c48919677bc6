-- ===== src/Db/Reach/Laws.antt =====
-- Every database that operations lead to has a log that replays to what it shows.
use btypedb.Prelude.{ℕ, ◌+◌, ◌≤◌, ◌≡◌, true, List, ok, take, length, inl, inr, Result-cases, ◌++◌}
use btypedb.Prelude.Int.{ℤ, leb_ℤ}
use btypedb.Prelude.Order.{Order, IsExact}
use btypedb.Wal.Record.{WalRecord}
use btypedb.Wal.Replay.Crash.{recovered, log_of, apply_groups, total_size, survivors, parsed_past}
use btypedb.Codec.{RoundTrips}
use btypedb.Encrypt.{header_for}
use btypedb.State.{Trees, DbState, empty_state, get}
use btypedb.Db.Apply.{Format}
use btypedb.Db.Handle.{Db}
use btypedb.Db.Reach.Kept.{Operation-IsDurableLog, Operations-IsDurableLog}
use btypedb.Db.Reach.{Operations, Compactable, Reach}
use btypedb.Db.Log.{apply, IsDurableLog}
use btypedb.Db.Recovery.{reopened}
use btypedb.Db.Recoverable.{
  IsRecoverable, IsDurableLog-IsRecoverable, since_now, continued-IsRecoverable,
  later-IsRecoverable, IsRecoverable-reopened, IsRecoverable-cut,
}
use btypedb.Db.Compact.{CompactIo, compact}
use btypedb.Db.Compact.Laws.{compact-IsCompacted, compact_err}

module _ {K : Type 0} {o : Order K} {V : Type 0} (trees : Trees o V) (format : Format K V) where
  open format use {key_codec, val_codec, cipher}

  module _ (key_round : RoundTrips key_codec) (val_round : RoundTrips val_codec) where
    module _ (exact : IsExact o) where
      -- A compaction between operations, on every branch.
      compact-IsRecoverable :
          (now : ℤ) (io : CompactIo) (during : Db trees → Db trees) (db : Db trees)
          → IsRecoverable trees format (header_for cipher) now db
          → leb_ℤ now io.now ≡ true
          → Compactable trees format io db
          → Operations trees format db (during db)
          → IsRecoverable trees format
              (header_for cipher)
              io.now
              (compact trees format io during db).1
      compact-IsRecoverable now io during db r late c more =
          let since =
            Operations-IsDurableLog trees format key_round val_round db.state
              (take db.wal_size db.file.content) db (during db) more
              (since_now trees format (header_for cipher) now db r) in
          let here = later-IsRecoverable trees format (header_for cipher) now io.now late in
          elim (Result-cases (compact trees format io during db).0) [
            | inl (u, good) ↦
                (compact-IsCompacted trees format exact key_round val_round io c.sound during db
                  r.size_le since c.deadlines c.small good).recoverable
            | inr (x, bad) ↦ elim (compact_err trees format io during db x bad) [
              | inl went_on ↦ rw went_on (
                  here (during db) (
                    continued-IsRecoverable trees format (header_for cipher) now db (during db) r
                      since))
              | inr stayed ↦ rw stayed (here db r)
            ]
          ]

      module _ (init : Db trees)
          (h : IsDurableLog trees format (empty_state trees) (header_for cipher) init) where
        Reach-IsRecoverable :
            (now : ℤ) (db : Db trees)
            → Reach trees format init now db
            → IsRecoverable trees format (header_for cipher) now db
        Reach-IsRecoverable now _ (Reach.from_open _) =
            IsDurableLog-IsRecoverable trees format now (header_for cipher) init h
        Reach-IsRecoverable now _ (Reach.steps _ db db' reach step) =
            let r = Reach-IsRecoverable now db reach in
            continued-IsRecoverable trees format (header_for cipher) now db db' r (
              Operation-IsDurableLog trees format key_round val_round db.state
                (take db.wal_size db.file.content) db db' step
                (since_now trees format (header_for cipher) now db r))
        Reach-IsRecoverable _ _ (Reach.compacts now io during db reach late c more) =
            compact-IsRecoverable now io during db (Reach-IsRecoverable now db reach) late c more

        -- Whatever sequence of sets, deletes, transactions, syncs, operations on indexes and
        -- compactions leads to a database from one whose log replays to its state, with operations
        -- of the same kinds while a compaction streams, and whatever the system answers: its log, up
        -- to walSize, replays without an error to a state that shows what the database shows, of
        -- every key and at every moment from that of the last compaction on. The operations owe what
        -- `Operation` and `Compactable` say, the codecs round-trip, and the order of keys tells unequal
        -- keys apart.
        pub Reach-reopened :
            (now : ℤ) (db : Db trees)
            → Reach trees format init now db
            → (t : DbState trees) × (valid : ℕ) × (parsed : ℕ) × (reopened trees format
                  (header_for cipher)
                  (take db.wal_size db.file.content)
                ≡ recovered (apply trees format) t valid parsed)
              × ((k : K) (m : ℤ) → leb_ℤ now m ≡ true → get trees db.state k m ≡ get trees t k m)
        Reach-reopened now db reach =
            let r = Reach-IsRecoverable now db reach in
            let (valid, parsed, e) =
              IsRecoverable-reopened trees format (header_for cipher) now db r in
            (r.replayed, valid, parsed, e, r.agrees)

        -- In each of these databases the log is the header and then commits, which replay to a state
        -- that shows what the database shows; cut `n` bytes behind the header, it replays without an
        -- error to the state after exactly the commits that lie whole in these `n` bytes.
        pub Reach-cut :
            (now : ℤ) (db : Db trees) (n : ℕ)
            → Reach trees format init now db
            → length (header_for cipher) + n ≤ db.wal_size
            → (groups : List (List WalRecord)) × (full : DbState trees) × (t : DbState trees)
              × (take db.wal_size db.file.content ≡ header_for cipher ++ log_of groups)
              × (apply_groups (apply trees format) (empty_state trees) groups ≡ ok full)
              × ((k : K) (m : ℤ) → leb_ℤ now m ≡ true → get trees db.state k m ≡ get trees full k m)
              × (apply_groups (apply trees format) (empty_state trees) (survivors n groups) ≡ ok t)
              × (reopened trees format
                    (header_for cipher)
                    (take (length (header_for cipher) + n) db.file.content)
                  ≡ recovered
                      (apply trees format)
                      t
                      (total_size (survivors n groups))
                      (total_size (survivors n groups) + parsed_past n groups))
        Reach-cut now db n reach fits =
            let r = Reach-IsRecoverable now db reach in
            let (t, applied, e) =
              IsRecoverable-cut trees format (header_for cipher) now db r n fits in
            (r.groups, r.replayed, t, r.log_eq, r.applies, r.agrees, applied, e)
