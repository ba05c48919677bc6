-- ===== src/Db/Recovery.antt =====
-- What a crash leaves of a database, and what `Open` makes of it.
use native.Mathlib.Decide.{dec_le}
use btypedb.Prelude.{
  ℕ, ◌+◌, ◌-◌, ◌≤◌, ◌≡◌, refl, ap, ◌∙◌, sym, Option, List, [], ◌∷◌, ◌++◌, Result, ok, ◌>>=◌, length,
  take, drop, if◌then◌else◌, leb, le→leb, lt→leb, arith, >>=-eq-ok, take-append_ge, take-take,
  drop-length_append, length-append,
}
use btypedb.Prelude.Order.{Order}
use btypedb.Bytes.{Bytes}
use btypedb.Wal.Record.{WalRecord}
use btypedb.Wal.Reader.{eof}
use btypedb.Wal.Reader.Framing.{over}
use btypedb.Wal.Replay.{Replayed, replay_log}
use btypedb.Wal.Replay.Groups.{group_bytes, group_size, apply_all, length-group_bytes}
use btypedb.Wal.Replay.Crash.{
  log_of, survivors, total_size, parsed_past, apply_groups, recovered, replay_log-cut,
}
use btypedb.State.{Trees, DbState, empty_state}
use btypedb.Db.Apply.{Format}
use btypedb.Db.Replay.{forget}
use btypedb.Db.Handle.{Db}
use btypedb.Db.Log.{apply, IsDurableLog}

-- The commits that do not lie whole in the first `n` bytes.
abbrev pub lost : ℕ → List (List WalRecord) → List (List WalRecord)
lost n [] = []
lost n (g ∷ gs) =
    let more = lost (n - group_size g) gs in if leb (group_size g) n then more else g ∷ gs

pub survivors-lost : (n : ℕ) (gs : List (List WalRecord)) → survivors n gs ++ lost n gs ≡ gs
survivors-lost n [] = refl
survivors-lost n (g ∷ gs) = elim (dec_le (group_size g) n) [
  | yes fits ↦
      rw (le→leb (group_size g) n fits) (ap (λ l. g ∷ l) (survivors-lost (n - group_size g) gs))
  | no cut ↦ rw (lt→leb n (group_size g) (omega arith))
]

-- A cut behind the end loses nothing.
pub survivors_all :
    (n : ℕ) (gs : List (List WalRecord)) → length (log_of gs) ≤ n → survivors n gs ≡ gs
survivors_all n [] h = refl
survivors_all n (g ∷ gs) h =
    let len = length-append (group_bytes g) (log_of gs) in
    let here : group_size g ≤ n = omega (arith, length-group_bytes g) in
    rw (le→leb (group_size g) n here)
      (ap (λ l. g ∷ l) (survivors_all (n - group_size g) gs (omega (arith, length-group_bytes g))))

module _ {S : Type 0} (apply : S → WalRecord → Result S) where
  pub apply_groups-prefix :
      (xs ys : List (List WalRecord)) (s t : S)
      → apply_groups apply s (xs ++ ys) ≡ ok t
      → (u : S) × (apply_groups apply s xs ≡ ok u)
  apply_groups-prefix [] ys s t h = (s, refl)
  apply_groups-prefix (x ∷ xs) ys s t h =
      let (s1, one, others) =
        >>=-eq-ok (apply_all apply s x) (λ v. apply_groups apply v (xs ++ ys)) h in
      let (u, e) = apply_groups-prefix xs ys s1 t others in
      (u, ap (λ m. m >>= λ v. apply_groups apply v xs) one ∙ e)

module _ {K : Type 0} {o : Order K} {V : Type 0} (trees : Trees o V) (format : Format K V) where
  -- What `Open` replays: the file behind its header.
  abbrev pub reopened : Bytes → Bytes → Option (Replayed (DbState trees))
  reopened hdr content =
      replay_log (apply trees format) (forget trees (empty_state trees))
        (over eof (drop (length hdr) content))

  module _ (hdr : Bytes) (db : Db trees)
      (h : IsDurableLog trees format (empty_state trees) hdr db) where
    behind_header :
        (n : ℕ)
        → length hdr + n ≤ db.wal_size
        → drop (length hdr) (take (length hdr + n) db.file.content) ≡ take n (log_of h.groups)
    behind_header n lo =
        let cut : take (length hdr + n) db.file.content
            ≡ take (length hdr + n) (hdr ++ log_of h.groups) =
          sym (take-take (length hdr + n) db.wal_size db.file.content lo)
          ∙ ap (take (length hdr + n)) h.log_eq in
        let parts : take (length hdr + n) (hdr ++ log_of h.groups)
            ≡ hdr ++ take n (log_of h.groups) =
          take-append_ge (length hdr + n) hdr (log_of h.groups) (omega arith)
          ∙ (let e : length hdr + n - length hdr ≡ n = omega arith in rw e) in
        rw (cut, parts) (drop-length_append hdr (take n (log_of h.groups)))

    -- A crash that cuts the file of a database at any byte `n` behind the header and up to
    -- `wal_size` loses only whole commits from the end: the commits of the log are `kept ++ gone`,
    -- and replaying what is left ends without an error in the state after `kept`, with its end as
    -- `valid_len`.
    pub reopen-cut :
        (n : ℕ)
        → length hdr + n ≤ db.wal_size
        → (kept : List (List WalRecord)) × (gone : List (List WalRecord)) × (t : DbState trees)
          × (p : ℕ) × (h.groups ≡ kept ++ gone)
          × (apply_groups (apply trees format) (forget trees (empty_state trees)) kept ≡ ok t)
          × (reopened hdr (take (length hdr + n) db.file.content)
              ≡ recovered (apply trees format) t (total_size kept) (total_size kept + p))
    reopen-cut n lo =
        let whole = survivors-lost n h.groups in
        let (t, e) =
          apply_groups-prefix (apply trees format) (survivors n h.groups) (lost n h.groups)
            (forget trees (empty_state trees)) (forget trees db.state) (rw whole h.applies) in
        (
          survivors n h.groups,
          lost n h.groups,
          t,
          parsed_past n h.groups,
          sym whole,
          e,
          rw (behind_header n lo) (
              replay_log-cut (apply trees format) h.groups n (forget trees (empty_state trees)) t
                h.grouped e),
        )

    -- A file whole up to `wal_size` replays to the state of the database, its indexes apart, which
    -- are not in the log: nothing that was written is lost.
    pub reopen-whole :
        (valid : ℕ) × (parsed : ℕ) × (reopened hdr (take db.wal_size db.file.content)
          ≡ recovered (apply trees format) (forget trees db.state) valid parsed)
    reopen-whole =
        let n = length (log_of h.groups) in
        let size : db.wal_size ≡ length hdr + n = h.size_eq ∙ length-append hdr (log_of h.groups) in
        let all = survivors_all n h.groups (omega arith) in
        (
          total_size (survivors n h.groups),
          total_size (survivors n h.groups) + parsed_past n h.groups,
          rw (size, behind_header n (omega arith))
              (replay_log-cut (apply trees format) h.groups n (forget trees (empty_state trees))
                (forget trees db.state) h.grouped (rw all h.applies)),
        )
