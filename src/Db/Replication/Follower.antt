-- ===== src/Db/Replication/Follower.antt =====
-- A follower that ships ranges of one epoch while the database goes on: its copy is always the
-- beginning of the log, and replays to whole commits.
use btypedb.Prelude.{
  ℕ, ◌+◌, ◌-◌, ◌≤◌, ◌≡◌, refl, ◌∙◌, sym, ap, List, [], ◌++◌, ok, length, take, drop, take-add,
  take-take, length-append, arith, inl, inr,
}
use btypedb.Prelude.Int.{pos}
use btypedb.Prelude.Order.{Order}
use btypedb.Bytes.{Bytes}
use btypedb.State.{Trees, DbState, empty_state}
use btypedb.Wal.Record.{WalRecord}
use btypedb.Wal.Replay.Crash.{total_size, apply_groups, recovered}
use btypedb.Db.Apply.{Format}
use btypedb.Db.Replay.{forget}
use btypedb.Db.Handle.{Db, WriteOutcome}
use btypedb.Db.Log.{apply, IsDurableLog}
use btypedb.Db.Recovery.{reopened, reopen-cut}
use btypedb.Db.Replication.{read_log_range}
use btypedb.Db.Replication.Ranges.{IsSlice, read_log_range-IsSlice}
use btypedb.Db.Replication.Growth.{HasSize, Grows}
use btypedb.Db.Replication.Steps.{LogStep, LogStep-Grows}

module _ {K : Type 0} {o : Order K} {V : Type 0} (trees : Trees o V) (format : Format K V) where
  -- The bytes that a follower of an epoch has put together, each range from where they end, and the
  -- database at that moment.
  pub data Follows (epoch : ℕ) : Db trees → Bytes → Type 0 where
    begins : (db : Db trees) → HasSize trees db → Follows epoch db []
    polls :
        (w : WriteOutcome) (max : ℕ) (db : Db trees) (copy : Bytes)
        → Follows epoch db copy
        → Follows epoch db
            (copy ++ (read_log_range trees w db epoch (pos (length copy)) (pos max)).sent)
    goes_on :
        (db db' : Db trees) (copy : Bytes)
        → Follows epoch db copy
        → LogStep trees format db db'
        → Follows epoch db' copy

  pub record IsBeginning (db : Db trees) (copy : Bytes) : Type 0 where
    pub has_size : HasSize trees db
    pub within : length copy ≤ db.wal_size
    pub copy_eq : copy ≡ take (length copy) db.file.content

  longer-IsBeginning :
      (db : Db trees) (copy sent : Bytes) (max : ℕ)
      → IsBeginning db copy
      → IsSlice db.file.content db.wal_size (length copy) max sent
      → IsBeginning db (copy ++ sent)
  longer-IsBeginning db copy sent max b s = record {
    has_size = b.has_size;
    within = elim s.inside [
      | inl nothing ↦ omega (arith, b.within, ap length nothing, length-append copy sent)
      | inr fits ↦ omega (arith, fits, length-append copy sent)
    ];
    copy_eq =
        rw (length-append copy sent, take-add (length copy) (length sent) db.file.content)
          (ap (λ l. copy ++ l) s.slice_eq
            ∙ ap (λ l. l ++ take (length sent) (drop (length copy) db.file.content)) b.copy_eq);
  }

  stepped-IsBeginning :
      (db db' : Db trees) (copy : Bytes)
      → IsBeginning db copy
      → Grows trees db db'
      → IsBeginning db' copy
  stepped-IsBeginning db db' copy b g = record {
    has_size = g.has_size;
    within = omega (arith, b.within, g.size_le);
    copy_eq =
        b.copy_eq
        ∙ sym (take-take (length copy) db.wal_size db.file.content b.within)
        ∙ ap (take (length copy)) (sym g.prefix_eq)
        ∙ take-take (length copy) db.wal_size db'.file.content b.within;
  }

  -- However ranges of an epoch and operations of the database alternate, and whatever the copies
  -- answer, the bytes that the follower has are the beginning of the log, up to walSize at most.
  pub Follows-IsBeginning :
      (epoch : ℕ) (db : Db trees) (copy : Bytes) → Follows epoch db copy → IsBeginning db copy
  Follows-IsBeginning epoch _ _ (Follows.begins db h) = record {
    has_size = h;
    within = omega arith;
    copy_eq = refl;
  }
  Follows-IsBeginning epoch _ _ (Follows.polls w max db copy f) =
      longer-IsBeginning db copy _ max (Follows-IsBeginning epoch db copy f)
        (read_log_range-IsSlice trees w db epoch (length copy) max)
  Follows-IsBeginning epoch _ _ (Follows.goes_on db db' copy f s) =
      let b = Follows-IsBeginning epoch db copy f in
      stepped-IsBeginning db db' copy b (LogStep-Grows trees format db db' s b.has_size)

  -- The copy of a follower that holds the header replays without an error, to the state after
  -- commits that the database made, whole and in order, if the log of the database replays to its
  -- state.
  pub Follows-reopened :
      (epoch : ℕ) (hdr : Bytes) (db : Db trees) (copy : Bytes)
      → Follows epoch db copy
      → (h : IsDurableLog trees format (empty_state trees) hdr db) → length hdr ≤ length copy
      → (kept : List (List WalRecord)) × (gone : List (List WalRecord)) × (t : DbState trees)
        × (p : ℕ) × (h.groups ≡ kept ++ gone)
        × (apply_groups (apply trees format) (forget trees (empty_state trees)) kept ≡ ok t)
        × (reopened trees format hdr copy
            ≡ recovered (apply trees format) t (total_size kept) (total_size kept + p))
  Follows-reopened epoch hdr db copy f h long =
      let b = Follows-IsBeginning epoch db copy f in
      let n = length copy - length hdr in
      let size : length hdr + n ≡ length copy = omega arith in
      let same_copy : copy ≡ take (length hdr + n) db.file.content =
        b.copy_eq ∙ ap (λ (m : ℕ). take m db.file.content) (sym size) in
      let (kept, gone, t, p, parts, applied, replays) =
        reopen-cut trees format hdr db h n (omega (arith, b.within)) in
      (kept, gone, t, p, parts, applied, ap (reopened trees format hdr) same_copy ∙ replays)
