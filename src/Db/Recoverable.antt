-- ===== src/Db/Recoverable.antt =====
-- A log that replays to a state that shows what the database shows: what is left of `IsDurableLog`
-- once a compaction has dropped the pairs whose deadline had come.
use btypedb.Prelude.{
  ℕ, ◌+◌, ◌-◌, ◌≤◌, ◌≡◌, refl, ap, ◌∙◌, sym, true, none, List, [], ◌++◌, ok, length, take, All,
  All-append, append-nil, append_assoc, take_all, length-take, drop-length_append, arith,
  take-append_ge, take-take,
}
use btypedb.Prelude.Int.{ℤ, leb_ℤ, leb_ℤ_trans}
use btypedb.Prelude.Order.{Order}
use btypedb.Bytes.{Bytes}
use btypedb.Wal.Record.{WalRecord}
use btypedb.Wal.Reader.{eof}
use btypedb.Wal.Reader.Framing.{over}
use btypedb.Wal.Replay.{replay_log}
use btypedb.Wal.Replay.Groups.{IsGroup}
use btypedb.Wal.Replay.Crash.{
  log_of, apply_groups, recovered, survivors, total_size, parsed_past, replay_log-cut,
}
use btypedb.Wal.Replay.Append.{log_of-append, apply_groups-append}
use btypedb.State.{Trees, DbState, empty_state, get, expired}
use btypedb.Db.Apply.{Format}
use btypedb.Db.Replay.{forget}
use btypedb.Db.Handle.{Db}
use btypedb.Db.Log.{apply, IsDurableLog}
use btypedb.Db.Recovery.{reopened, lost, survivors-lost, survivors_all, apply_groups-prefix}
use btypedb.Db.Compact.Agreement.{Agrees, apply_groups-Agrees}

module _ {K : Type 0} {o : Order K} {V : Type 0} (trees : Trees o V) (format : Format K V) where
  pub record IsRecoverable (header : Bytes) (now : ℤ) (db : Db trees) : Type 0 where
    pub groups : List (List WalRecord)
    pub replayed : DbState trees
    pub grouped : All IsGroup groups
    pub log_eq : take db.wal_size db.file.content ≡ header ++ log_of groups
    pub size_le : db.wal_size ≤ length db.file.content
    pub clean : db.write_err ≡ none → length db.file.content ≡ db.wal_size
    pub applies : apply_groups (apply trees format) (empty_state trees) groups ≡ ok replayed
    pub agrees : Agrees trees now db.state replayed

  pub IsDurableLog-IsRecoverable :
      (now : ℤ) (hdr : Bytes) (db : Db trees)
      → IsDurableLog trees format (empty_state trees) hdr db
      → IsRecoverable hdr now db
  unfolding get expired
  IsDurableLog-IsRecoverable now hdr db h = record {
    groups = h.groups;
    replayed = forget trees db.state;
    grouped = h.grouped;
    log_eq = h.log_eq;
    size_le = h.size_le;
    clean = h.clean;
    applies = h.applies;
    agrees = λ k m late. refl;
  }

  pub later-IsRecoverable :
      (header : Bytes) (now later : ℤ)
      → leb_ℤ now later ≡ true
      → (db : Db trees) → IsRecoverable header now db
      → IsRecoverable header later db
  later-IsRecoverable header now later late db r = record {
    groups = r.groups;
    replayed = r.replayed;
    grouped = r.grouped;
    log_eq = r.log_eq;
    size_le = r.size_le;
    clean = r.clean;
    applies = r.applies;
    agrees = λ k m after. r.agrees k m (leb_ℤ_trans now later m late after);
  }

  -- The log of a database since this moment: it is empty.
  pub since_now :
      (header : Bytes) (now : ℤ) (db : Db trees)
      → IsRecoverable header now db
      → IsDurableLog trees format db.state (take db.wal_size db.file.content) db
  since_now header now db r =
      let start = take db.wal_size db.file.content in
      record {
        groups = [];
        grouped = tt;
        log_eq = sym (append-nil start);
        size_eq = omega (
          arith,
          r.size_le,
          length-take db.wal_size db.file.content,
          ap length (append-nil start),
        );
        size_le = r.size_le;
        clean = r.clean;
        applies = refl;
      }

  -- What the log was at a moment, and the log since then.
  pub continued-IsRecoverable :
      (header : Bytes) (now : ℤ) (db db' : Db trees)
      → IsRecoverable header now db
      → IsDurableLog trees format db.state (take db.wal_size db.file.content) db'
      → IsRecoverable header now db'
  unfolding get expired
  continued-IsRecoverable header now db db' r h =
      let (t, also, near) =
        apply_groups-Agrees trees now format h.groups (forget trees db.state) r.replayed
          (forget trees db'.state) r.agrees h.applies in
      record {
        groups = r.groups ++ h.groups;
        replayed = t;
        grouped = All-append IsGroup r.groups h.groups r.grouped h.grouped;
        log_eq =
            h.log_eq
            ∙ rw (
              r.log_eq,
              log_of-append r.groups h.groups,
              append_assoc header (log_of r.groups) (log_of h.groups),
            );
        size_le = h.size_le;
        clean = h.clean;
        applies =
            apply_groups-append (apply trees format) r.groups h.groups (empty_state trees)
              r.replayed r.applies
            ∙ also;
        agrees = near;
      }

  pub log-reopened :
      (hdr : Bytes) (gs : List (List WalRecord)) (t : DbState trees)
      → All IsGroup gs
      → apply_groups (apply trees format) (empty_state trees) gs ≡ ok t
      → (valid : ℕ) × (parsed : ℕ) × (reopened trees format hdr (hdr ++ log_of gs)
          ≡ recovered (apply trees format) t valid parsed)
  log-reopened hdr gs t grouped a =
      let n = length (log_of gs) in
      let all = survivors_all n gs (omega arith) in
      let whole = take_all n (log_of gs) (omega arith) in
      (
        total_size (survivors n gs),
        total_size (survivors n gs) + parsed_past n gs,
        ap (λ l. replay_log (apply trees format) (empty_state trees) (over eof l))
              (drop-length_append hdr (log_of gs) ∙ sym whole)
            ∙ replay_log-cut (apply trees format) gs n (empty_state trees) t grouped (rw all a),
      )

  pub IsRecoverable-reopened :
      (header : Bytes) (now : ℤ) (db : Db trees) (r : IsRecoverable header now db)
      → (valid : ℕ) × (parsed : ℕ) × (reopened trees format header
            (take db.wal_size db.file.content)
          ≡ recovered (apply trees format) r.replayed valid parsed)
  IsRecoverable-reopened header now db r =
      let (valid, parsed, e) = log-reopened header r.groups r.replayed r.grouped r.applies in
      (valid, parsed, ap (reopened trees format header) r.log_eq ∙ e)

  -- The log cut anywhere behind its header replays to the state after the commits that lie whole
  -- before the cut.
  pub IsRecoverable-cut :
      (header : Bytes) (now : ℤ) (db : Db trees) (r : IsRecoverable header now db) (n : ℕ)
      → length header + n ≤ db.wal_size
      → (t : DbState trees) × (apply_groups
            (apply trees format)
            (empty_state trees)
            (survivors n r.groups)
          ≡ ok t)
        × (reopened trees format header (take (length header + n) db.file.content)
            ≡ recovered
                (apply trees format)
                t
                (total_size (survivors n r.groups))
                (total_size (survivors n r.groups) + parsed_past n r.groups))
  IsRecoverable-cut header now db r n lo =
      let m = length header + n in
      let log = log_of r.groups in
      let whole = survivors-lost n r.groups in
      let (t, e) =
        apply_groups-prefix (apply trees format) (survivors n r.groups) (lost n r.groups)
          (empty_state trees) r.replayed (rw whole r.applies) in
      let less : length header + n - length header ≡ n = omega arith in
      let cut : take m db.file.content ≡ header ++ take n log =
        sym (take-take m db.wal_size db.file.content lo)
        ∙ ap (take m) r.log_eq
        ∙ take-append_ge m header log (omega arith)
        ∙ ap (λ (i : ℕ). header ++ take i log) less in
      (
        t,
        e,
        ap (reopened trees format header) cut
            ∙ ap (λ l. replay_log (apply trees format) (empty_state trees) (over eof l))
                (drop-length_append header (take n log))
            ∙ replay_log-cut (apply trees format) r.groups n (empty_state trees) t r.grouped e,
      )
