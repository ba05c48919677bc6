-- ===== src/Db/Close/Laws.antt =====
-- `Close`: what it leaves, and that no operation touches the file any more.
use Prim.Native.String.{String}
use btypedb.Prelude.{
  ℕ, Result, ok, Bool, if◌then◌else◌, ◌≡◌, refl, ◌∙◌, sym, ap, true, false, [], err, Result-cases,
  inl, inr, arith, length, Bool-cases, Option, none, some, closed, subst,
}
use btypedb.Prelude.Int.{ℤ}
use btypedb.Prelude.Order.{Order}
use btypedb.State.{Trees}
use btypedb.Db.Apply.{Format}
use btypedb.Db.Handle.{Db, File, Io, can_write, sync, background_sync, mark_durable}
use btypedb.Db.Writes.{db_set_internal, db_delete, guarded_append, encoded}
use btypedb.Db.Transactions.{gave, commit, rollback}
use btypedb.Tx.{Tx}
use btypedb.Db.Index.{create_index, drop_index}
use btypedb.Bytes.{Bytes}
use btypedb.Db.Sweep.{sweep_expired}
use btypedb.Db.Compact.{CompactIo, compact, splice, auto_compacted}
use btypedb.Db.Reach.{Operation}
use btypedb.Db.Close.{CloseIo, close_db, finish_close, sweep_round, noted}

if_true : {A : Type 0} (x y : A) (b : Bool) → b ≡ true → (if b then x else y) ≡ x
if_true x y true h = refl
if_true x y false h = cc h

module _ {K : Type 0} {o : Order K} {V : Type 0} (trees : Trees o V) (format : Format K V) where
  open format use {key_codec, val_codec, cipher}

  -- The database stays closed, and its file and its pairs what they were.
  pub record StaysClosed (db db' : Db trees) : Type 0 where
    pub closed_still : db'.is_closed ≡ true
    pub same_file : db'.file ≡ db.file
    pub same_state : db'.state ≡ db.state

  unchanged-StaysClosed : (db : Db trees) → db.is_closed ≡ true → StaysClosed db db
  unchanged-StaysClosed db c = record { closed_still = c; same_file = refl; same_state = refl }

  can_write-closed : (db : Db trees) → db.is_closed ≡ true → can_write trees db ≡ err closed
  unfolding can_write
  can_write-closed db c = rw c refl

  db_set_internal-StaysClosed :
      (io : Io) (db : Db trees) (key : K) (value : V) (d : ℤ)
      → db.is_closed ≡ true
      → StaysClosed db (db_set_internal trees format io db key value d).1
  unfolding db_set_internal guarded_append
  db_set_internal-StaysClosed io db key value d c =
      let no = can_write-closed db c in
      elim (Result-cases (encoded trees format io key value)) [
        | inl (kv, e) ↦ rw (db_set_internal, e, guarded_append, no) (unchanged-StaysClosed db c)
        | inr (x, e) ↦ rw (db_set_internal, e) (unchanged-StaysClosed db c)
      ]

  db_delete-StaysClosed :
      (io : Io) (now : ℤ) (db : Db trees) (key : K)
      → db.is_closed ≡ true
      → StaysClosed db (db_delete trees format io now db key).1
  unfolding db_delete
  db_delete-StaysClosed io now db key c =
      let no = can_write-closed db c in
      elim (Result-cases (key_codec.encode key)) [
        | inl (kb, e) ↦ rw (db_delete, e, no) (unchanged-StaysClosed db c)
        | inr (x, e) ↦ rw (db_delete, e) (unchanged-StaysClosed db c)
      ]

  commit-StaysClosed :
      (io : Io) (tx : Tx trees) (db : Db trees)
      → db.is_closed ≡ true
      → StaysClosed db (commit trees io tx db).1
  unfolding commit
  commit-StaysClosed io tx db c =
      let no = can_write-closed db c in
      elim (Bool-cases tx.done) [
        | inl over ↦ rw (commit, over) (unchanged-StaysClosed db c)
        | inr running ↦ elim (Bool-cases tx.writable) [
          | inr reader ↦ rw (commit, running, reader) (unchanged-StaysClosed db c)
          | inl writer ↦
              rw (commit, running, writer, no)
                (record { closed_still = c; same_file = refl; same_state = refl })
        ]
      ]

  rollback-StaysClosed :
      (tx : Tx trees) (db : Db trees) → db.is_closed ≡ true → StaysClosed db (rollback trees tx db)
  unfolding rollback
  rollback-StaysClosed tx db c = record {
    closed_still = ground (arith, c);
    same_file = ground (arith, c);
    same_state = ground (arith, c);
  }

  indexes-StaysClosed :
      (name : String) (compare : Option (Order (K × V))) (db : Db trees)
      → db.is_closed ≡ true
      → StaysClosed db (create_index trees name compare db).1
  unfolding create_index
  indexes-StaysClosed name none db c = unchanged-StaysClosed db c
  indexes-StaysClosed name (some compare) db c = record {
    closed_still = ground (arith, c);
    same_file = ground (arith, c);
    same_state = ground (arith, c);
  }

  Operation-StaysClosed :
      (db db' : Db trees) → Operation trees format db db' → db.is_closed ≡ true → StaysClosed db db'
  unfolding sync background_sync drop_index
  Operation-StaysClosed _ _ (Operation.sets io db key value d int sound small) c =
      db_set_internal-StaysClosed io db key value d c
  Operation-StaysClosed _ _ (Operation.deletes io now db key small) c =
      db_delete-StaysClosed io now db key c
  Operation-StaysClosed _ _ (Operation.begins db) c = record {
    closed_still = c;
    same_file = refl;
    same_state = refl;
  }
  Operation-StaysClosed _ _ (Operation.commits io tx db l few) c = commit-StaysClosed io tx db c
  Operation-StaysClosed _ _ (Operation.rolls_back tx db) c = rollback-StaysClosed tx db c
  Operation-StaysClosed _ _ (Operation.creates_index name compare db) c =
      indexes-StaysClosed name compare db c
  Operation-StaysClosed _ _ (Operation.drops_index name db) c = record {
    closed_still = ground (arith, c);
    same_file = ground (arith, c);
    same_state = ground (arith, c);
  }
  Operation-StaysClosed _ _ (Operation.syncs b db) c = record {
    closed_still = ground (arith, c);
    same_file = ground (arith, c);
    same_state = ground (arith, c);
  }
  Operation-StaysClosed _ _ (Operation.syncs_behind b db) c = record {
    closed_still = ground (arith, c);
    same_file = ground (arith, c);
    same_state = ground (arith, c);
  }

  -- What other callers and the goroutines do around a Close: operations, rounds of the sweeper, whole
  -- compactions and what an automatic one notes at its end, and the second phase of a compaction that
  -- streamed its snapshot before. Nothing is asked of the system's answers.
  pub data Activity : Db trees → Db trees → Type 0 where
    operates : (db db' : Db trees) → Operation trees format db db' → Activity db db'
    sweeps :
        (io : Io) (now clock : ℤ) (db : Db trees)
        → Activity db (sweep_round trees format io now clock db)
    compacts :
        (io : CompactIo) (meanwhile : Db trees → Db trees) (db : Db trees)
        → Activity db (compact trees format io meanwhile db).1
    splices :
        (io : CompactIo) (bytes : Bytes) (tail_start : ℕ) (db : Db trees)
        → Activity db (splice trees format io bytes tail_start db).1
    notes : (r : Result (Unit {0})) (db : Db trees) → Activity db (auto_compacted trees format r db)

  pub data Activities (db0 : Db trees) : Db trees → Type 0 where
    idle : Activities db0 db0
    then : (db db' : Db trees) → Activities db0 db → Activity db db' → Activities db0 db'

  sweep_expired-closed :
      (io : Io) (now clock : ℤ) (db : Db trees)
      → db.is_closed ≡ true
      → sweep_expired trees format io now clock db ≡ (gave (ok tt), db)
  unfolding sweep_expired
  sweep_expired-closed io now clock db c = if_true _ _ db.is_closed c

  Activity-StaysClosed :
      (db db' : Db trees) → Activity db db' → db.is_closed ≡ true → StaysClosed db db'
  unfolding sweep_round auto_compacted compact splice
  Activity-StaysClosed _ _ (Activity.operates db db' op) c = Operation-StaysClosed db db' op c
  Activity-StaysClosed _ _ (Activity.sweeps io now clock db) c =
      subst (StaysClosed db)
        (sym (ap (noted trees format) (sweep_expired-closed io now clock db c)))
        (unchanged-StaysClosed db c)
  Activity-StaysClosed _ _ (Activity.compacts io meanwhile db) c =
      rw (compact, can_write-closed db c) (unchanged-StaysClosed db c)
  Activity-StaysClosed _ _ (Activity.splices io bytes tail_start db) c =
      rw (splice, can_write-closed db c) (unchanged-StaysClosed db c)
  Activity-StaysClosed _ _ (Activity.notes (ok u) db) c = record {
    closed_still = c;
    same_file = refl;
    same_state = refl;
  }
  Activity-StaysClosed _ _ (Activity.notes (err e) db) c = record {
    closed_still = c;
    same_file = refl;
    same_state = refl;
  }

  Activities-StaysClosed :
      (db db' : Db trees) → db.is_closed ≡ true → Activities db db' → StaysClosed db db'
  Activities-StaysClosed db _ c Activities.idle = unchanged-StaysClosed db c
  Activities-StaysClosed db _ c (Activities.then db1 db2 before last) =
      let s = Activities-StaysClosed db db1 c before in
      let t = Activity-StaysClosed db1 db2 last s.closed_still in
      record {
        closed_still = t.closed_still;
        same_file = t.same_file ∙ s.same_file;
        same_state = t.same_state ∙ s.same_state;
      }

  -- What the end of `Close` leaves, where the last sync succeeds.
  record IsFlushed (db db' : Db trees) : Type 0 where
    same_closed : db'.is_closed ≡ db.is_closed
    same_content : db'.file.content ≡ db.file.content
    durable_eq : db'.file.durable ≡ length db'.file.content

  finish_close-IsFlushed :
      (io : CloseIo) (db : Db trees) → io.sync ≡ true → IsFlushed db (finish_close trees io db).1
  unfolding finish_close mark_durable
  finish_close-IsFlushed io db s = record {
    same_closed = ground (arith, s);
    same_content = ground (arith, s);
    durable_eq = ground (arith, s);
  }

  -- After a Close of an open database whose last sync succeeded, whatever operations, sweeps and
  -- compactions ran while it waited or run later, the second phase of a compaction that was streaming
  -- included, and whatever the system answers them, the file holds what it held before Close, all of it
  -- synced, and one more Close answers nil and changes nothing.
  pub close_db-file :
      (io io' : CloseIo) (during during' : Db trees → Db trees) (db db' : Db trees)
      → db.is_closed ≡ false
      → io.sync ≡ true
      → Activities (record db { is_closed = true }) (during (record db { is_closed = true }))
      → Activities (close_db trees io during db).1 db'
      → (db'.file.content ≡ db.file.content)
        × (db'.file.durable ≡ length db.file.content)
        × (close_db trees io' during' db' ≡ ([], db'))
  unfolding close_db
  close_db-file io io' during during' db db' open_db synced waits after =
      let shut = record db { is_closed = true } in
      let first = Activities-StaysClosed shut (during shut) refl waits in
      let f = finish_close-IsFlushed io (during shut) synced in
      let ended = finish_close trees io (during shut) in
      let same_end : (close_db trees io during db).1 ≡ ended.1 = rw open_db refl in
      let later =
        Activities-StaysClosed ended.1 db' (f.same_closed ∙ first.closed_still)
          (subst (λ x. Activities x db') same_end after) in
      let content : db'.file.content ≡ db.file.content =
        ap (λ (x : File). x.content) later.same_file
        ∙ f.same_content
        ∙ ap (λ (x : File). x.content) first.same_file in
      (
        content,
        ap (λ (x : File). x.durable) later.same_file
            ∙ f.durable_eq
            ∙ ap (λ (x : File). length x.content) (sym later.same_file)
            ∙ ap length content,
        rw later.closed_still refl,
      )
