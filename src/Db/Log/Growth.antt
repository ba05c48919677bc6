-- ===== src/Db/Log/Growth.antt =====
-- A log grows by whole groups, or breaks off and stays as it was.
use btypedb.Prelude.{
  ℕ, ◌+◌, ◌≡◌, ap, ◌∙◌, sym, Option, some, List, [], ◌∷◌, ◌++◌, ok, Error, length, take_all,
  take-append_le, length-append, All-append, append-nil, append_assoc, arith,
}
use btypedb.Prelude.Order.{Order}
use btypedb.Bytes.{Bytes}
use btypedb.Wal.Record.{WalRecord}
use btypedb.Wal.Replay.Groups.{group_bytes, IsGroup, apply_all}
use btypedb.Wal.Replay.Crash.{log_of}
use btypedb.Wal.Replay.Append.{log_of-append, apply_groups-append}
use btypedb.State.{Trees, DbState}
use btypedb.Db.Apply.{Format}
use btypedb.Db.Replay.{forget}
use btypedb.Db.Log.{apply, HasLog}

module _ {K : Type 0} {o : Order K} {V : Type 0} (trees : Trees o V) (format : Format K V) where
  module _ (init : DbState trees) (hdr : Bytes) (s : DbState trees) (content : Bytes) (size : ℕ)
      (e : Option Error) (h : HasLog trees format init hdr s content size e) where
    -- One group more.
    pub append-HasLog :
        (g : List WalRecord) (s' : DbState trees) (e' : Option Error)
        → length content ≡ size
        → IsGroup g
        → apply_all (apply trees format) (forget trees s) g ≡ ok (forget trees s')
        → HasLog trees format init hdr s'
            (content ++ group_bytes g)
            (size + length (group_bytes g))
            e'
    append-HasLog g s' e' clean ig a =
        let whole : content ≡ hdr ++ log_of h.groups =
          sym (take_all size content (omega arith)) ∙ h.log_eq in
        let longer : content ++ group_bytes g ≡ hdr ++ log_of (h.groups ++ (g ∷ [])) = rw (
          whole,
          log_of-append h.groups (g ∷ []),
          append-nil (group_bytes g),
          append_assoc hdr (log_of h.groups) (group_bytes g),
        ) in
        let len = length-append content (group_bytes g) in
        record {
          groups = h.groups ++ (g ∷ []);
          grouped = All-append IsGroup h.groups (g ∷ []) h.grouped (ig, tt);
          log_eq =
              take_all (size + length (group_bytes g)) (content ++ group_bytes g)
                (omega (arith, len))
              ∙ longer;
          size_eq = omega (arith, len, ap length longer);
          size_le = omega (arith, len);
          clean = λ _. omega (arith, len);
          applies =
              apply_groups-append (apply trees format) h.groups (g ∷ []) (forget trees init)
                (forget trees s) h.applies
              ∙ rw a;
        }

    -- A write that broke off.
    pub torn-HasLog :
        (junk : Bytes) (x : Error) → HasLog trees format init hdr s (content ++ junk) size (some x)
    torn-HasLog junk x = record {
      groups = h.groups;
      grouped = h.grouped;
      log_eq = take-append_le size content junk h.size_le ∙ h.log_eq;
      size_eq = h.size_eq;
      size_le = omega (arith, length-append content junk, h.size_le);
      clean = λ c. cc c;
      applies = h.applies;
    }
