-- ===== src/Db/Open/Laws.antt =====
-- `Open` after a crash.
use btypedb.Prelude.{
  ℕ, ◌+◌, ◌≡◌, refl, ap, ◌∙◌, sym, Bool, true, Option, some, List, [], ◌∷◌, ◌++◌, Result, ok, err,
  io_failure, ltb, length, take, drop, All, arith, length-append, take-length_append, Bool-cases,
  inl, inr, take_all, append-nil,
}
use btypedb.Prelude.Order.{Order}
use btypedb.Bytes.{Bytes}
use btypedb.State.{Trees, DbState, empty_state}
use btypedb.Wal.Record.{WalRecord}
use btypedb.Wal.Replay.Groups.{IsGroup, group_bytes, length-group_bytes}
use btypedb.Wal.Replay.Bounds.{replay_log-Ended}
use btypedb.Wal.Replay.Crash.{log_of, total_size, apply_groups}
use btypedb.Db.Apply.{Format, apply_record}
use btypedb.Db.Replay.{forget}
use btypedb.Db.Handle.{Db, File, Options}
use btypedb.Db.Header.{OpenIo, prepare_header}
use btypedb.Db.Log.{apply, IsDurableLog}
use btypedb.Db.Open.{
  open_db, replay_input, on_header, on_replayed, finish_open, fresh_handle, truncated,
}

pub length-log_of : (gs : List (List WalRecord)) → length (log_of gs) ≡ total_size gs
length-log_of [] = refl
length-log_of (g ∷ gs) =
    omega (arith, length-append (group_bytes g) (log_of gs), length-group_bytes g, length-log_of gs)

module _ {K : Type 0} {o : Order K} {V : Type 0} (trees : Trees o V) (format : Format K V) where
  -- `Open` ends on every file, whatever is in it and whatever the system answers.
  pub open_db-total :
      (io : OpenIo) (truncate_at_corrupt : Bool) (options : Options) (f : File)
      → (x : Result (Db trees) × File) × (open_db trees format io truncate_at_corrupt options f
          ≡ some x)
  unfolding open_db
  open_db-total io truncate_at_corrupt options f = go (prepare_header io format.cipher f)
    where
      go :
          (h : Result ℕ × File)
          → (x : Result (Db trees) × File) × (on_header trees format io truncate_at_corrupt options
                h
              ≡ some x)
      go (err e, f1) = ((err e, f1), refl)
      go (ok start, f1) = elim (Bool-cases io.seek_records) [
        | inr failure ↦ ((err io_failure, f1), rw failure)
        | inl sought ↦
            let (x, ends, _, _) =
              replay_log-Ended (apply_record trees format) (empty_state trees)
                (replay_input trees format io.replay_fails (drop start f1.content)) in
            (
              on_replayed trees format io truncate_at_corrupt options start f1 x,
              simp (sought, ends),
            )
      ]

  -- A database that stands on a log of these commits, and on nothing else.
  pub record Stands (hdr : Bytes) (kept : List (List WalRecord)) (t : DbState trees)
      (x : Option (Result (Db trees) × File)) : Type 0 where
    pub db : Db trees
    pub yields : x ≡ some (ok db, db.file)
    pub content_eq : db.file.content ≡ hdr ++ log_of kept
    pub state_eq : db.state ≡ forget trees t
    pub log : IsDurableLog trees format (empty_state trees) hdr db

  module _ (hdr : Bytes) (io : OpenIo) (options : Options) (kept : List (List WalRecord))
      (rest : Bytes) (t : DbState trees) (groups : All IsGroup kept)
      (applied : apply_groups (apply trees format) (empty_state trees) kept ≡ ok (forget trees t))
      (seen : io.stat_valid ≡ true) (truncates : io.truncate_tail ≡ true)
      (seeks : io.seek_end ≡ true) where
    abbrev valid : ℕ
    valid = total_size kept + length hdr

    whole_log : length (hdr ++ log_of kept) ≡ valid
    whole_log = omega (arith, length-append hdr (log_of kept), length-log_of kept)

    -- A handle on exactly the kept commits.
    stands_on :
        (f : File)
        → f.content ≡ hdr ++ log_of kept
        → IsDurableLog trees format
            (empty_state trees)
            hdr
            (fresh_handle trees format options (forget trees t) f valid)
    stands_on f e = record {
      groups = kept;
      grouped = groups;
      log_eq = rw e (take_all valid (hdr ++ log_of kept) (omega (arith, whole_log)));
      size_eq = sym whole_log;
      size_le = omega (arith, whole_log, ap length e);
      clean = λ _. omega (arith, whole_log, ap length e);
      applies = applied;
    }

    pub finish_open-Stands :
        (f : File)
        → f.content ≡ (hdr ++ log_of kept) ++ rest
        → Stands hdr kept t (some (finish_open trees format io options (forget trees t) valid f))
    unfolding finish_open
    finish_open-Stands f e = elim (Bool-cases (ltb valid (length f.content))) [
      | inl longer ↦
          let cut : take valid f.content ≡ hdr ++ log_of kept =
            rw (e, ← whole_log) (take-length_append (hdr ++ log_of kept) rest) in
          record {
            db =
                fresh_handle trees format options (forget trees t) (truncated trees format valid f)
                  valid;
            yields = simp (seen, longer, truncates, seeks);
            content_eq = cut;
            state_eq = refl;
            log = stands_on (truncated trees format valid f) cut;
          }
      | inr exact ↦
          let none_left : length rest ≡ 0 =
            ground
              (arith, exact, ap length e, length-append (hdr ++ log_of kept) rest, whole_log) in
          let same : f.content ≡ hdr ++ log_of kept =
            e ∙ ap (λ b. (hdr ++ log_of kept) ++ b) (empty_of rest none_left) ∙ append-nil _ in
          record {
            db = fresh_handle trees format options (forget trees t) f valid;
            yields = simp (seen, exact, seeks);
            content_eq = same;
            state_eq = refl;
            log = stands_on f same;
          }
    ]
      where
        empty_of : (bs : Bytes) → length bs ≡ 0 → bs ≡ []
        empty_of [] h = refl
        empty_of (b ∷ bs) h = absurd (omega arith)
