-- ===== src/Db/Reach/Kept.antt =====
-- Every operation keeps that the log replays to the state of the database.
use Prim.Native.String.{String}
use text.Mathlib.Text.{◌==◌}
use btypedb.Prelude.{
  ◌≡◌, refl, sym, subst, Bool, true, none, some, Option, List, arith, false, Result, if◌then◌else◌,
}
use btypedb.Prelude.Order.{Order}
use btypedb.Bytes.{Bytes}
use btypedb.Codec.{RoundTrips}
use btypedb.State.{Trees, DbState, Index}
use btypedb.Tx.{Tx}
use btypedb.Db.Apply.{Format}
use btypedb.Db.Handle.{Db, sync, background_sync, mark_durable}
use btypedb.Db.Transactions.{rollback}
use btypedb.Db.Reach.{Operation, Operations}
use btypedb.Db.Index.{create_index, drop_index, with_idx, idx_get, is_there}
use btypedb.Db.Log.{IsDurableLog, Keeps, Keeps-IsDurableLog}
use btypedb.Db.Log.Commit.{commit-IsDurableLog}
use btypedb.Db.Log.Writes.{db_set_internal-IsDurableLog, db_delete-IsDurableLog}

module _ {K : Type 0} {o : Order K} {V : Type 0} (trees : Trees o V) (format : Format K V) where
  open format use {key_codec, val_codec, cipher}

  sync-Keeps : (b : Bool) (db : Db trees) → Keeps trees format db (sync trees b db).1
  unfolding sync mark_durable
  sync-Keeps b db = record {
    same_state = ground arith;
    same_content = ground arith;
    same_size = ground arith;
    still_clean = λ e. ground (arith, e);
  }

  background_sync-Keeps :
      (b : Bool) (db : Db trees) → Keeps trees format db (background_sync trees b db)
  unfolding background_sync
  background_sync-Keeps b db = record {
    same_state = ground arith;
    same_content = ground arith;
    same_size = ground arith;
    still_clean = λ e. ground (arith, e);
  }

  rollback-Keeps : (tx : Tx trees) (db : Db trees) → Keeps trees format db (rollback trees tx db)
  unfolding rollback
  rollback-Keeps tx db = record {
    same_state = ground arith;
    same_content = ground arith;
    same_size = ground arith;
    still_clean = λ e. ground (arith, e);
  }

  -- An index is not logged.
  abbrev Reindexed : Db trees → Db trees → Type 0
  Reindexed db db' = (idx : List (String × Index trees)) × (db' ≡ with_idx trees db idx)

  either-Reindexed :
      (db : Db trees) (c : Bool) (x y : Result (Unit {0}) × Db trees)
      → Reindexed db x.1
      → Reindexed db y.1
      → Reindexed db (if c then x else y).1
  either-Reindexed db true x y h k = h
  either-Reindexed db false x y h k = k

  create_index-Reindexed :
      (name : String) (compare : Option (Order (K × V))) (db : Db trees)
      → Reindexed db (create_index trees name compare db).1
  unfolding create_index
  create_index-Reindexed name none db = (db.state.idx, refl)
  create_index-Reindexed name (some compare) db =
      let stays : Reindexed db db = (db.state.idx, refl) in
      either-Reindexed db (name == "") _ _ stays (
        either-Reindexed db db.is_closed _ _ stays (
          either-Reindexed db (is_there trees (idx_get trees name db.state.idx)) _ _ stays
            (_, refl)))

  drop_index-Reindexed : (name : String) (db : Db trees) → Reindexed db (drop_index trees name db).1
  unfolding drop_index
  drop_index-Reindexed name db =
      let stays : Reindexed db db = (db.state.idx, refl) in
      either-Reindexed db db.is_closed _ _ stays
        (either-Reindexed db (is_there trees (idx_get trees name db.state.idx)) _ _ (_, refl) stays)

  Reindexed-IsDurableLog :
      (s : DbState trees) (hdr : Bytes) (db db' : Db trees)
      → Reindexed db db'
      → IsDurableLog trees format s hdr db
      → IsDurableLog trees format s hdr db'
  Reindexed-IsDurableLog s hdr db db' (idx, e) h =
      subst (IsDurableLog trees format s hdr) (sym e) (record {
        groups = h.groups;
        grouped = h.grouped;
        log_eq = h.log_eq;
        size_eq = h.size_eq;
        size_le = h.size_le;
        clean = h.clean;
        applies = h.applies;
      })

  module _ (key_round : RoundTrips key_codec) (val_round : RoundTrips val_codec) where
    pub Operation-IsDurableLog :
        (s : DbState trees) (hdr : Bytes) (db db' : Db trees)
        → Operation trees format db db'
        → IsDurableLog trees format s hdr db
        → IsDurableLog trees format s hdr db'
    Operation-IsDurableLog s hdr _ _ (Operation.sets io db key value d int sound small) h =
        db_set_internal-IsDurableLog trees format s hdr io db h key value d key_round val_round int
          sound small
    Operation-IsDurableLog s hdr _ _ (Operation.deletes io now db key small) h =
        db_delete-IsDurableLog trees format s hdr io db h now key key_round small
    Operation-IsDurableLog s hdr _ _ (Operation.begins db) h = h
    Operation-IsDurableLog s hdr _ _ (Operation.commits io tx db l few) h =
        commit-IsDurableLog trees format s hdr io tx db h l few
    Operation-IsDurableLog s hdr _ _ (Operation.rolls_back tx db) h =
        Keeps-IsDurableLog trees format s hdr _ _ (rollback-Keeps tx db) h
    Operation-IsDurableLog s hdr _ _ (Operation.creates_index name compare db) h =
        Reindexed-IsDurableLog s hdr db _ (create_index-Reindexed name compare db) h
    Operation-IsDurableLog s hdr _ _ (Operation.drops_index name db) h =
        Reindexed-IsDurableLog s hdr db _ (drop_index-Reindexed name db) h
    Operation-IsDurableLog s hdr _ _ (Operation.syncs b db) h =
        Keeps-IsDurableLog trees format s hdr _ _ (sync-Keeps b db) h
    Operation-IsDurableLog s hdr _ _ (Operation.syncs_behind b db) h =
        Keeps-IsDurableLog trees format s hdr _ _ (background_sync-Keeps b db) h

    pub Operations-IsDurableLog :
        (s : DbState trees) (hdr : Bytes) (db db' : Db trees)
        → Operations trees format db db'
        → IsDurableLog trees format s hdr db
        → IsDurableLog trees format s hdr db'
    Operations-IsDurableLog s hdr db _ Operations.start h = h
    Operations-IsDurableLog s hdr db _ (Operations.goes db1 db2 before last) h =
        Operation-IsDurableLog s hdr db1 db2 last (Operations-IsDurableLog s hdr db db1 before h)
