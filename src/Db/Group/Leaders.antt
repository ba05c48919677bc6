-- ===== src/Db/Group/Leaders.antt =====
-- What a leader holds, and that the steps of others keep it.
use btypedb.Prelude.{ℕ, io_failure, ◌+◌, ◌≤◌, ◌<◌, true, Option, none, some, List, arith}
use btypedb.Db.Handle.{GroupSync}
use btypedb.Db.Group.{Waiter, Leader, elected, captured, answered, System}

-- What a leader holds: of a handle that was swapped out, everything it covers is in the new file.
abbrev pub LeaderFits : System → Option Leader → Type 0
LeaderFits s none = Unit
LeaderFits s (some elected) = Unit
LeaderFits s (some (captured file cover c)) =
    (cover ≤ s.append_seq) × (file ≤ s.handle) × (file < s.handle → cover ≤ s.on_disk)
LeaderFits s (some (answered cover none)) = cover ≤ s.on_disk
LeaderFits s (some (answered cover (some e))) = Unit

pub append-LeaderFits :
    (s : System) (n : ℕ) (ws : List Waiter) (l : Option Leader)
    → s.append_seq ≤ n
    → LeaderFits s l
    → LeaderFits (record s { append_seq = n; waiters = ws }) l
append-LeaderFits s n ws none le h = tt
append-LeaderFits s n ws (some elected) le h = tt
append-LeaderFits s n ws (some (captured file cover c)) le h = (omega arith, h.1, h.2)
append-LeaderFits s n ws (some (answered cover none)) le h = h
append-LeaderFits s n ws (some (answered cover (some e))) le h = tt

pub swap-LeaderFits :
    (s : System) (g : GroupSync) (ws : List Waiter) (l : Option Leader)
    → s.on_disk ≤ s.append_seq
    → LeaderFits s l
    → LeaderFits
        (record s { handle = s.handle + 1; on_disk = s.append_seq; gsync = g; waiters = ws })
        l
swap-LeaderFits s g ws none le h = tt
swap-LeaderFits s g ws (some elected) le h = tt
swap-LeaderFits s g ws (some (captured file cover c)) le h = (h.0, omega arith, λ _. h.0)
swap-LeaderFits s g ws (some (answered cover none)) le h = omega arith
swap-LeaderFits s g ws (some (answered cover (some e))) le h = tt

pub mark-LeaderFits :
    (s : System) (g : GroupSync) (ws : List Waiter) (l : Option Leader)
    → s.on_disk ≤ s.append_seq
    → LeaderFits s l
    → LeaderFits (record s { on_disk = s.append_seq; gsync = g; waiters = ws }) l
mark-LeaderFits s g ws none le h = tt
mark-LeaderFits s g ws (some elected) le h = tt
mark-LeaderFits s g ws (some (captured file cover c)) le h = (h.0, h.1, λ _. h.0)
mark-LeaderFits s g ws (some (answered cover none)) le h = omega arith
mark-LeaderFits s g ws (some (answered cover (some e))) le h = tt

pub close-LeaderFits :
    (s : System) (l : Option Leader) → LeaderFits s l → LeaderFits (record s { is_closed = true }) l
close-LeaderFits s none h = tt
close-LeaderFits s (some elected) h = tt
close-LeaderFits s (some (captured file cover c)) h = h
close-LeaderFits s (some (answered cover none)) h = h
close-LeaderFits s (some (answered cover (some e))) h = tt

pub tear-LeaderFits :
    (s : System) (l : Option Leader)
    → LeaderFits s l
    → LeaderFits (record s { write_err = some io_failure }) l
tear-LeaderFits s none h = tt
tear-LeaderFits s (some elected) h = tt
tear-LeaderFits s (some (captured file cover c)) h = h
tear-LeaderFits s (some (answered cover none)) h = h
tear-LeaderFits s (some (answered cover (some e))) h = tt

pub answer-LeaderFits :
    (s : System) (ws : List Waiter) (l : Option Leader)
    → LeaderFits s l
    → LeaderFits (record s { waiters = ws }) l
answer-LeaderFits s ws none h = tt
answer-LeaderFits s ws (some elected) h = tt
answer-LeaderFits s ws (some (captured file cover c)) h = h
answer-LeaderFits s ws (some (answered cover none)) h = h
answer-LeaderFits s ws (some (answered cover (some e))) h = tt
