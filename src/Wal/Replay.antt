-- ===== src/Wal/Replay.antt =====
-- `replayLog` of wal.go. `apply` is the callback that `Open` gives.
pub mod Groups
pub mod Rounds
pub mod Crash
pub mod Bounds
pub mod Append
use btypedb.Prelude.{
  ℕ, zero, suc, ◌+◌, ◌≡◌, Option, none, some, List, [], ◌∷◌, ◌++◌, ◌==◌, if◌then◌else◌, length,
  Error, io_failure, Result, ok, err,
}
use btypedb.Bytes.{get_le}
use btypedb.Wal.Record.{WalRecord, op_batch}
use btypedb.Wal.Reader.{Reader, Read, got, none_left, read_error, read_record}

-- What the loop over the members of a batch leaves: all of them, with the sizes and the reader
-- behind them, or a group that is not intact, or a failed read.
pub data Collected : Type 0 where
  whole : List WalRecord → ℕ → ℕ → Reader → Collected
  torn : ℕ → Collected
  unreadable : ℕ → Collected

abbrev pub on_member :
    (List WalRecord → ℕ → ℕ → Reader → Collected) → List WalRecord → ℕ → ℕ → Read → Collected
on_member next batch total parsed (got rec size r) =
    let more = next (batch ++ (rec ∷ [])) (total + size) (parsed + size) r in
    if rec.op == op_batch then torn parsed else more
on_member next batch total parsed none_left = torn parsed
on_member next batch total parsed read_error = unreadable parsed

-- `for range n`
unfoldable pub collect : ℕ → List WalRecord → ℕ → ℕ → Reader → Collected
collect zero batch total parsed r = whole batch total parsed r
collect (suc n) batch total parsed r = on_member (collect n) batch total parsed (read_record r)

pub record Replayed (S : Type 0) : Type 0 where
  pub state : S
  pub valid_len : ℕ
  pub parsed_len : ℕ
  pub error : Option Error

module _ {S : Type 0} (apply : S → WalRecord → Result S) where
  abbrev pub stop : S → ℕ → ℕ → Option Error → Option (Replayed S)
  stop s off parsed e = some (record { state = s; valid_len = off; parsed_len = parsed; error = e })

  -- The members of an intact batch, up to the first that fails.
  unfoldable pub apply_batch : S → List WalRecord → S × Option Error
  apply_batch s [] = (s, none)
  apply_batch s (r ∷ rs) = elim (apply s r) [ ok s' ↦ apply_batch s' rs | err e ↦ (s, some e) ]

  abbrev pub finish_batch :
      (S → ℕ → Reader → Option (Replayed S))
      → ℕ
      → ℕ
      → ℕ
      → Reader
      → S × Option Error
      → Option (Replayed S)
  finish_batch next off parsed total r (s, none) = next s (off + total) r
  finish_batch next off parsed total r (s, some e) = stop s off parsed (some e)

  abbrev pub on_batch :
      (S → ℕ → Reader → Option (Replayed S)) → S → ℕ → Collected → Option (Replayed S)
  on_batch next s off (whole batch total parsed r) =
      finish_batch next off parsed total r (apply_batch s batch)
  on_batch next s off (torn parsed) = stop s off parsed none
  on_batch next s off (unreadable parsed) = stop s off parsed (some io_failure)

  abbrev pub on_single :
      (S → ℕ → Reader → Option (Replayed S)) → S → ℕ → ℕ → Reader → Result S → Option (Replayed S)
  on_single next s off size r (ok s') = next s' (off + size) r
  on_single next s off size r (err e) = stop s off off (some e)

  -- One round of the loop; `next` is the rest of it.
  abbrev pub on_record : (S → ℕ → Reader → Option (Replayed S)) → S → ℕ → Read → Option (Replayed S)
  on_record next s off (got rec size r) =
      let single = on_single next s off size r (apply s rec) in
      let batch = on_batch next s off (collect (get_le rec.val) [] size (off + size) r) in
      if rec.op == op_batch
      then if length rec.val == 8 then batch else stop s off (off + size) none
      else single
  on_record next s off none_left = stop s off off none
  on_record next s off read_error = stop s off off (some io_failure)

  unfoldable pub replay_loop : ℕ → S → ℕ → Reader → Option (Replayed S)
  replay_loop zero s off r = none
  replay_loop (suc fuel) s off r = on_record (replay_loop fuel) s off (read_record r)

  -- Each round takes a byte at least, so the bytes of the log bound the rounds.
  unfoldable pub replay_log : S → Reader → Option (Replayed S)
  replay_log s r = replay_loop (suc (length r.bytes)) s 0 r
