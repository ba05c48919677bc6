-- ===== src/Db/Group.antt =====
-- groupcommit.go with any number of committers: the steps that `waitDurable`, a write, `Close`, and
-- the swap of the log by `Compact` take one after the other. A step is what happens under one lock.
pub mod Leaders
pub mod Safety
pub mod Progress
use btypedb.Prelude.{
  ℕ, ◌+◌, ◌%◌, ◌^◌, map, ◌≤◌, ◌<◌, ◌≡◌, Bool, true, false, Option, none, some, List, [], ◌∷◌, ◌++◌,
  Result, ok, err, Error, closed, io_failure, ltb, ◌==◌, if◌then◌else◌,
}
use btypedb.Db.Handle.{GroupSync}

-- Where a committer is in `waitDurable`: in the loop, asleep in `cond.Wait`, at the sync as the
-- leader, or back with an answer.
pub data Stage : Type 0 where
  running asleep leading : Stage
  told : Result (Unit {0}) → Stage

pub record Waiter : Type 0 where
  pub seq : ℕ
  pub stage : Stage

-- The leader, from `gs.syncing = true` to `gs.syncing = false`: before it reads the handle, before
-- its sync, and before it publishes the result.
pub data Leader : Type 0 where
  elected : Leader
  captured : ℕ → ℕ → Bool → Leader  -- the handle, `cover`, `closed`
  answered : ℕ → Option Error → Leader  -- `cover`, `err`

-- `on_disk` is not in the code: the last append that is on the disk, in the file that is live.
pub record System : Type 0 where
  pub append_seq : ℕ
  pub on_disk : ℕ
  pub handle : ℕ  -- counts the swaps of `db.file`
  pub is_closed : Bool
  pub write_err : Option Error
  pub gsync : GroupSync
  pub leader : Option Leader
  pub waiters : List Waiter

abbrev pub raise : ℕ → ℕ → ℕ
raise a b = if ltb a b then b else a

-- `f.Sync()` of a captured handle, and the look at `db.file` behind a failure.
unfoldable pub sync_result : ℕ → ℕ → Bool → Bool → System → System
sync_result file cover was_closed sync_ok s =
    if was_closed
    then record s { leader = some (answered cover (some closed)) }
    else if sync_ok
    then record s {
      on_disk = if file == s.handle then raise s.on_disk cover else s.on_disk;
      leader = some (answered cover none);
    }
    else if file == s.handle
    then record s {
      write_err = if is_none s.write_err then some io_failure else s.write_err;
      leader = some (answered cover (some io_failure));
    }
    else record s { leader = some (answered cover none) }
  where
    is_none : Option Error → Bool
    is_none none = true
    is_none (some _) = false

-- `cond.Broadcast`
abbrev pub awake : Waiter → Waiter
awake w = record w {
  stage = elim w.stage [
    | asleep ↦ running
    | running ↦ running
    | leading ↦ leading
    | told r ↦ told r
  ];
}

abbrev pub broadcast : System → System
broadcast s = record s { waiters = map awake s.waiters }

-- The leader goes back to the loop.
abbrev pub released : Waiter → Waiter
released w = record w {
  stage = elim w.stage [
    | leading ↦ running
    | running ↦ running
    | asleep ↦ asleep
    | told r ↦ told r
  ];
}

abbrev published_gsync : Option Error → ℕ → GroupSync → GroupSync
published_gsync (some e) cover g = record g { syncing = false; failure = some e }
published_gsync none cover g = record g { syncing = false; synced = raise g.synced cover }

unfoldable pub publish_result : ℕ → Option Error → System → System
publish_result cover e s = broadcast (record s {
  leader = none;
  gsync = published_gsync e cover s.gsync;
  waiters = map released s.waiters;
})

-- `markDurable`, behind a sync of the live file.
unfoldable pub marked : System → System
marked s = broadcast (record s {
  on_disk = s.append_seq;
  gsync = record s.gsync { synced = raise s.gsync.synced s.append_seq };
})

-- What a committer answers once the loop has ended.
abbrev pub answer_of : ℕ → GroupSync → Option (Result (Unit {0}))
answer_of seq g =
    if ltb g.synced seq
    then elim g.failure [ none ↦ none | some e ↦ some (err e) ]
    else some (ok tt)

pub data Step : System → System → Type 0 where
  -- a write appends, and its committer enters the loop; the counter is a uint64
  append :
      (s : System)
      → s.is_closed ≡ false
      → s.write_err ≡ none
      → Step s (record s {
        append_seq = (s.append_seq + 1) % 2 ^ 64;
        waiters = s.waiters ++ (record { seq = (s.append_seq + 1) % 2 ^ 64; stage = running } ∷ []);
      })
  -- an append fails
  tear :
      (s : System)
      → s.is_closed ≡ false
      → s.write_err ≡ none
      → Step s (record s { write_err = some io_failure })
  -- a committer in the loop finds a sync in flight
  sleep :
      (s : System) (front back : List Waiter) (w : Waiter)
      → s.waiters ≡ front ++ (w ∷ back)
      → w.stage ≡ running
      → s.gsync.synced < w.seq
      → s.gsync.failure ≡ none
      → s.gsync.syncing ≡ true
      → Step s (record s { waiters = front ++ (record w { stage = asleep } ∷ back) })
  -- a committer in the loop finds none
  elect :
      (s : System) (front back : List Waiter) (w : Waiter)
      → s.waiters ≡ front ++ (w ∷ back)
      → w.stage ≡ running
      → s.gsync.synced < w.seq
      → s.gsync.failure ≡ none
      → s.gsync.syncing ≡ false
      → Step s (record s {
        leader = some elected;
        gsync = record s.gsync { syncing = true };
        waiters = front ++ (record w { stage = leading } ∷ back);
      })
  capture :
      (s : System)
      → s.leader ≡ some elected
      → Step s (record s { leader = some (captured s.handle s.append_seq s.is_closed) })
  sync :
      (s : System) (file cover : ℕ) (was_closed sync_ok : Bool)
      → s.leader ≡ some (captured file cover was_closed)
      → Step s (sync_result file cover was_closed sync_ok s)
  publish :
      (s : System) (cover : ℕ) (e : Option Error)
      → s.leader ≡ some (answered cover e)
      → Step s (publish_result cover e s)
  -- the end of `Compact`: the new file was synced, and `markDurable` is called
  swap :
      (s : System)
      → s.is_closed ≡ false
      → s.write_err ≡ none
      → Step s (marked (record s { handle = s.handle + 1 }))
  -- `Sync`, and the last sync of `Close`: both call `markDurable`
  mark : (s : System) → Step s (marked s)
  -- `Close`
  close : (s : System) → Step s (record s { is_closed = true })
  -- a committer leaves the loop
  answer :
      (s : System) (front back : List Waiter) (w : Waiter) (r : Result (Unit {0}))
      → s.waiters ≡ front ++ (w ∷ back)
      → w.stage ≡ running
      → answer_of w.seq s.gsync ≡ some r
      → Step s (record s { waiters = front ++ (record w { stage = told r } ∷ back) })

-- A database that was opened.
abbrev pub opened_system : System
opened_system = record {
  append_seq = 0;
  on_disk = 0;
  handle = 0;
  is_closed = false;
  write_err = none;
  gsync = record { synced = 0; syncing = false; failure = none };
  leader = none;
  waiters = [];
}

pub data Reach : System → Type 0 where
  here : Reach opened_system
  next : {s t : System} → Reach s → Step s t → Reach t

unfoldable pub step_appends : {s t : System} → Step s t → ℕ
step_appends (append s open_db clean) = 1
step_appends _ = 0

-- How many appends led to a state.
unfoldable pub appends : {s : System} → Reach s → ℕ
unfolding step_appends
appends here = 0
appends (next r st) = appends r + step_appends st
