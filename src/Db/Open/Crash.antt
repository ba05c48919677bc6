-- ===== src/Db/Open/Crash.antt =====
-- `Open` of a file that a crash cut.
use btypedb.Prelude.{
  ℕ, ◌+◌, ◌-◌, ◌≤◌, ◌<◌, ◌≡◌, ap, ◌∙◌, sym, Bool, true, false, none, some, List, [], ◌∷◌, ◌++◌, ok,
  err, le→leb, lt→leb, corrupt, ltb, length, take, drop, All, arith, length-append, Bool-cases, inl,
  inr, ◌⊎◌, append_assoc, take-append_ge, drop-append_ge, drop-length_append, All-append_left,
  subst,
}
use native.Mathlib.Decide.{dec_le}
use btypedb.Prelude.Order.{Order}
use btypedb.Bytes.{Bytes}
use btypedb.State.{Trees, DbState, empty_state}
use btypedb.Wal.Record.{WalRecord}
use btypedb.Wal.Replay.Groups.{IsGroup, group_size}
use btypedb.Wal.Replay.Crash.{
  log_of, total_size, apply_groups, recovered, survivors, parsed_past, replay_log-cut,
}
use btypedb.Wal.Replay.Append.{log_of-append}
use btypedb.Wal.Scan.{scan_for_record}
use btypedb.Encrypt.{header_for}
use btypedb.Db.Apply.{Format}
use btypedb.Db.Replay.{forget}
use btypedb.Db.Handle.{Db, File, Options}
use btypedb.Db.Header.{OpenIo, prepare_header}
use btypedb.Db.Header.Encrypted.{GivenHasKeyTag, prepare_header-header_for}
use btypedb.Db.Log.{apply, IsDurableLog}
use btypedb.Db.Recovery.{lost, survivors-lost}
use btypedb.Db.Open.{open_db, check_tail, finish_open, replayed_from}
use btypedb.Db.Open.Laws.{finish_open-Stands, length-log_of}

total_size-survivors : (n : ℕ) (gs : List (List WalRecord)) → total_size (survivors n gs) ≤ n
total_size-survivors n [] = omega arith
total_size-survivors n (g ∷ gs) = elim (dec_le (group_size g) n) [
  | yes fits ↦
      rw (le→leb (group_size g) n fits) (omega (arith, total_size-survivors (n - group_size g) gs))
  | no cut ↦ rw (lt→leb n (group_size g) (omega arith)) (omega arith)
]

abbrev torn_rest : ℕ → List (List WalRecord) → Bytes
torn_rest n gs = take (n - total_size (survivors n gs)) (log_of (lost n gs))

cut-split :
    (n : ℕ) (gs : List (List WalRecord))
    → take n (log_of gs) ≡ log_of (survivors n gs) ++ torn_rest n gs
cut-split n gs =
    let kept = survivors n gs in
    let size = length-log_of kept in
    ap (λ l. take n (log_of l)) (sym (survivors-lost n gs))
    ∙ ap (take n) (log_of-append kept (lost n gs))
    ∙ take-append_ge n (log_of kept) (log_of (lost n gs)) (omega (arith, total_size-survivors n gs))
    ∙ (rw size)

-- Every call that `Open` makes of the system succeeds.
pub record AllGood (io : OpenIo) : Type 0 where
  pub stat : io.stat ≡ true
  pub read : io.read ≡ true
  pub seek_records : io.seek_records ≡ true
  pub replay_fails : io.replay_fails ≡ none
  pub stat_parsed : io.stat_parsed ≡ true
  pub stat_valid : io.stat_valid ≡ true
  pub read_tail : io.read_tail ≡ true
  pub truncate_tail : io.truncate_tail ≡ true
  pub seek_end : io.seek_end ≡ true

module _ {K : Type 0} {o : Order K} {V : Type 0} (trees : Trees o V) (format : Format K V) where
  module _ (io : OpenIo) (good : AllGood io) (options : Options) (gs : List (List WalRecord))
      (n : ℕ) (durable : ℕ) (truncate_at_corrupt : Bool) where
    abbrev hdr : Bytes
    hdr = header_for format.cipher

    abbrev crashed : File
    crashed = record { content = hdr ++ take n (log_of gs); durable = durable }

    abbrev parsed : ℕ
    parsed = total_size (survivors n gs) + parsed_past n gs

    unparsed : drop (parsed + length hdr) crashed.content ≡ drop parsed (take n (log_of gs))
    unparsed =
        let e : parsed + length hdr - length hdr ≡ parsed = omega (arith) in
        drop-append_ge (parsed + length hdr) hdr (take n (log_of gs)) (omega (arith)) ∙ rw e

    behind : drop (length hdr) crashed.content ≡ take n (log_of gs)
    behind = drop-length_append hdr (take n (log_of gs))

    -- The scan of the tail lets the file pass.
    check_tail-passes :
        (t : DbState trees) (valid : ℕ)
        → (truncate_at_corrupt ≡ true) ⊎ (scan_for_record (drop parsed (take n (log_of gs))) ≡ none)
        → check_tail trees format io truncate_at_corrupt options t valid
            (parsed + length hdr)
            crashed
          ≡ finish_open trees format io options t valid crashed
    unfolding check_tail
    check_tail-passes t valid h =
        elim (Bool-cases (ltb (parsed + length hdr) (length crashed.content))) [
          | inr nothing_left ↦ simp (check_tail, good.stat_parsed, nothing_left)
          | inl left ↦ elim (Bool-cases truncate_at_corrupt) [
            | inl asked ↦ simp (check_tail, good.stat_parsed, left, asked)
            | inr careful ↦
                let clean : scan_for_record (drop (parsed + length hdr) crashed.content) ≡ none =
                  rw unparsed (ground (arith, h, careful)) in
                simp (check_tail, good.stat_parsed, left, careful, good.read_tail, clean)
          ]
        ]

    -- `Open` of a file, plain or begun with the key that is given, whose log a crash cut at any byte
    -- `n`, where every call of the system succeeds and where the scan finds no record in the rest or
    -- truncation was asked for: the database opens in the state after the commits that lie whole before
    -- the cut, on a file that holds the header and these commits and nothing else, and it replays to
    -- its state. A key seals 8 bytes to 24.
    pub open_db-crash :
        (t : DbState trees)
        → GivenHasKeyTag format.cipher
        → All IsGroup gs
        → apply_groups (apply trees format) (empty_state trees) (survivors n gs)
          ≡ ok (forget trees t)
        → (truncate_at_corrupt ≡ true) ⊎ (scan_for_record (drop parsed (take n (log_of gs))) ≡ none)
        → (db : Db trees) × (open_db trees format io truncate_at_corrupt options crashed
            ≡ some (ok db, db.file))
          × (db.file.content ≡ hdr ++ log_of (survivors n gs))
          × (db.state ≡ forget trees t)
          × IsDurableLog trees format (empty_state trees) hdr db
    unfolding open_db
    open_db-crash t tagged groups applied passes =
        let kept = survivors n gs in
        let header : prepare_header io format.cipher crashed ≡ (ok (length hdr), crashed) =
          prepare_header-header_for io (take n (log_of gs)) durable good.stat good.read
            format.cipher tagged in
        let replayed : replayed_from trees format io (length hdr) crashed
            ≡ recovered (apply trees format) (forget trees t) (total_size kept) parsed =
          rw (good.replay_fails, behind)
            (replay_log-cut (apply trees format) gs n (empty_state trees) (forget trees t) groups
              applied) in
        let content : crashed.content ≡ (hdr ++ log_of kept) ++ torn_rest n gs =
          ap (λ b. hdr ++ b) (cut-split n gs)
          ∙ sym (append_assoc hdr (log_of kept) (torn_rest n gs)) in
        let kept_groups : All IsGroup kept =
          All-append_left IsGroup kept (lost n gs)
            (subst (All IsGroup) (sym (survivors-lost n gs)) groups) in
        let stands =
          finish_open-Stands trees format hdr io options kept (torn_rest n gs) t kept_groups applied
            good.stat_valid good.truncate_tail good.seek_end crashed content in
        let passed = check_tail-passes (forget trees t) (total_size kept + length hdr) passes in
        (
          stands.db,
          simp (header, good.seek_records, replayed, passed) stands.yields,
          stands.content_eq,
          stands.state_eq,
          stands.log,
        )

    -- The same file is refused with `ErrCorrupt`, and left as it is, where the scan finds a record in
    -- the rest and truncation was not asked for.
    pub open_db-refuses :
        (t : DbState trees) (at : ℕ)
        → GivenHasKeyTag format.cipher
        → All IsGroup gs
        → apply_groups (apply trees format) (empty_state trees) (survivors n gs) ≡ ok t
        → truncate_at_corrupt ≡ false
        → parsed < length (take n (log_of gs))
        → scan_for_record (drop parsed (take n (log_of gs))) ≡ some at
        → open_db trees format io truncate_at_corrupt options crashed ≡ some (err corrupt, crashed)
    unfolding open_db check_tail
    open_db-refuses t at tagged groups applied careful more found =
        let header : prepare_header io format.cipher crashed ≡ (ok (length hdr), crashed) =
          prepare_header-header_for io (take n (log_of gs)) durable good.stat good.read
            format.cipher tagged in
        let replayed : replayed_from trees format io (length hdr) crashed
            ≡ recovered (apply trees format) t (total_size (survivors n gs)) parsed =
          rw (good.replay_fails, behind)
            (replay_log-cut (apply trees format) gs n (empty_state trees) t groups applied) in
        let left : ltb (parsed + length hdr) (length crashed.content) ≡ true =
          ground (arith, length-append hdr (take n (log_of gs)), more) in
        let there : scan_for_record (drop (parsed + length hdr) crashed.content) ≡ some at =
          rw unparsed found in
        simp (
          header, good.seek_records, replayed, check_tail, good.stat_parsed, left, careful,
          good.read_tail, there,
        )
