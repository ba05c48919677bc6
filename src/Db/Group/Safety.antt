-- ===== src/Db/Group/Safety.antt =====
-- No committer is told that its append is durable before it is.
use btypedb.Prelude.{
  ℕ, ◌%◌, ◌^◌, map, All-map, All-replace, refl, ◌+◌, ◌≤◌, ◌<◌, ◌≡◌, Bool, Option, none, some, List,
  [], ◌∷◌, ◌++◌, Result, ok, Error, closed, All, All-append, All-mono, arith, ◌==◌, subst,
  Bool-cases, inl, inr,
}
use btypedb.Db.Handle.{GroupSync}
use btypedb.Db.Group.Leaders.{
  LeaderFits, append-LeaderFits, tear-LeaderFits, swap-LeaderFits, mark-LeaderFits,
  close-LeaderFits, answer-LeaderFits,
}
use btypedb.Db.Group.{
  Stage, running, asleep, leading, told, Waiter, awake, released, marked, tear, sleep, step_appends,
  appends, Leader, elected, captured, answered, System, raise, sync_result, publish_result,
  answer_of, Step, append, elect, capture, sync, publish, swap, mark, close, answer, Reach, here,
  next, opened_system,
}

-- An acknowledged append is on the disk.
abbrev pub IsHonest : ℕ → Waiter → Type 0
IsHonest on_disk w = w.stage ≡ told (ok tt) → w.seq ≤ on_disk

pub record IsSafe (s : System) : Type 0 where
  pub on_disk_le : s.on_disk ≤ s.append_seq
  pub synced_le : s.gsync.synced ≤ s.on_disk
  pub leader_fits : LeaderFits s s.leader
  pub honest : All (IsHonest s.on_disk) s.waiters

raise-le : (a b : ℕ) → a ≤ raise a b
raise-le a b = ground arith

IsHonest-mono : (m n : ℕ) (ws : List Waiter) → m ≤ n → All (IsHonest m) ws → All (IsHonest n) ws
IsHonest-mono m n ws h = All-mono (IsHonest m) (IsHonest n) ws (λ w f e. omega (arith, f e))

opened_system-IsSafe : IsSafe opened_system
opened_system-IsSafe = record {
  on_disk_le = omega arith;
  synced_le = omega arith;
  leader_fits = tt;
  honest = tt;
}

sync-IsSafe :
    (s : System) (file cover : ℕ) (was_closed sync_ok : Bool)
    → s.leader ≡ some (captured file cover was_closed)
    → IsSafe s
    → IsSafe (sync_result file cover was_closed sync_ok s)
unfolding sync_result
sync-IsSafe s file cover was_closed sync_ok l h =
    let fits : LeaderFits s (some (captured file cover was_closed)) =
      subst (LeaderFits s) l h.leader_fits in
    elim (Bool-cases was_closed) [
      | inl over ↦ rw over (with_leader (some (answered cover (some closed))) tt)
      | inr open_db ↦ elim (Bool-cases sync_ok) [
        | inl synced ↦ elim (Bool-cases (file == s.handle)) [
          | inl live ↦
              rw (open_db, synced, live)
                (record {
                  on_disk_le = ground (arith, h.on_disk_le, fits);
                  synced_le = ground (arith, h.synced_le);
                  leader_fits = ground arith;
                  honest =
                      IsHonest-mono s.on_disk (raise s.on_disk cover) s.waiters
                        (raise-le s.on_disk cover) h.honest;
                })
          | inr retired ↦
              rw (open_db, synced, retired)
                (with_leader (some (answered cover none)) (ground (arith, fits, retired)))
        ]
        | inr failure ↦ elim (Bool-cases (file == s.handle)) [
          | inl live ↦
              rw (open_db, failure, live)
                (record {
                  on_disk_le = h.on_disk_le;
                  synced_le = h.synced_le;
                  leader_fits = tt;
                  honest = h.honest;
                })
          | inr retired ↦
              rw (open_db, failure, retired)
                (with_leader (some (answered cover none)) (ground (arith, fits, retired)))
        ]
      ]
    ]
  where
    with_leader : (l' : Option Leader) → LeaderFits s l' → IsSafe (record s { leader = l' })
    with_leader l' f = record {
      on_disk_le = h.on_disk_le;
      synced_le = h.synced_le;
      leader_fits = same l' f;
      honest = h.honest;
    }
      where
        same : (x : Option Leader) → LeaderFits s x → LeaderFits (record s { leader = l' }) x
        same none f = tt
        same (some elected) f = tt
        same (some (captured a b c)) f = f
        same (some (answered a none)) f = f
        same (some (answered a (some x))) f = tt

-- A committer that is woken, or that comes back from its sync, was told nothing.
awake-IsHonest : (m : ℕ) (ws : List Waiter) → All (IsHonest m) ws → All (IsHonest m) (map awake ws)
awake-IsHonest m ws = All-map (IsHonest m) (IsHonest m) awake ws (λ w. by_stage w w.stage)
  where
    by_stage :
        (w : Waiter) (c : Stage)
        → IsHonest m (record w { stage = c })
        → IsHonest m (awake (record w { stage = c }))
    by_stage w running h = h
    by_stage w asleep h = λ e. cc e
    by_stage w leading h = h
    by_stage w (told r) h = h

released-IsHonest :
    (m : ℕ) (ws : List Waiter) → All (IsHonest m) ws → All (IsHonest m) (map released ws)
released-IsHonest m ws = All-map (IsHonest m) (IsHonest m) released ws (λ w. by_stage w w.stage)
  where
    by_stage :
        (w : Waiter) (c : Stage)
        → IsHonest m (record w { stage = c })
        → IsHonest m (released (record w { stage = c }))
    by_stage w running h = h
    by_stage w asleep h = h
    by_stage w leading h = λ e. cc e
    by_stage w (told r) h = h

publish-IsSafe :
    (s : System) (cover : ℕ) (e : Option Error)
    → s.leader ≡ some (answered cover e)
    → IsSafe s
    → IsSafe (publish_result cover e s)
unfolding publish_result
publish-IsSafe s cover (some x) l h = record {
  on_disk_le = h.on_disk_le;
  synced_le = h.synced_le;
  leader_fits = tt;
  honest =
      awake-IsHonest s.on_disk (map released s.waiters)
        (released-IsHonest s.on_disk s.waiters h.honest);
}
publish-IsSafe s cover none l h =
    let fits : cover ≤ s.on_disk = subst (LeaderFits s) l h.leader_fits in
    record {
      on_disk_le = h.on_disk_le;
      synced_le = ground (arith, h.synced_le, fits);
      leader_fits = tt;
      honest =
          awake-IsHonest s.on_disk (map released s.waiters)
            (released-IsHonest s.on_disk s.waiters h.honest);
    }

IsHonest-answer_of :
    (on_disk : ℕ) (w : Waiter) (r : Result (Unit {0})) (g : GroupSync)
    → g.synced ≤ on_disk
    → answer_of w.seq g ≡ some r
    → IsHonest on_disk (record w { stage = told r })
IsHonest-answer_of on_disk w r g le h e = ground (arith, le, h, e)

marked-IsHonest : (s : System) → IsSafe s → All (IsHonest s.append_seq) (map awake s.waiters)
marked-IsHonest s h =
    awake-IsHonest s.append_seq s.waiters
      (IsHonest-mono s.on_disk s.append_seq s.waiters h.on_disk_le h.honest)

-- Every step keeps the state safe, while the counter has room.
Step-IsSafe :
    {s t : System} (st : Step s t) → s.append_seq + step_appends st < 2 ^ 64 → IsSafe s → IsSafe t
unfolding step_appends marked
Step-IsSafe (append s open_db clean) room h =
    let n : (s.append_seq + 1) % 2 ^ 64 ≡ s.append_seq + 1 = omega (arith, room) in
    record {
      on_disk_le = omega (arith, n, h.on_disk_le);
      synced_le = h.synced_le;
      leader_fits =
          append-LeaderFits s ((s.append_seq + 1) % 2 ^ 64)
            (s.waiters ++ (record { seq = (s.append_seq + 1) % 2 ^ 64; stage = running } ∷ []))
            s.leader (omega (arith, n)) h.leader_fits;
      honest = All-append (IsHonest s.on_disk) s.waiters _ h.honest ((λ e. cc e), tt);
    }
Step-IsSafe (tear s open_db clean) room h = record {
  on_disk_le = h.on_disk_le;
  synced_le = h.synced_le;
  leader_fits = tear-LeaderFits s s.leader h.leader_fits;
  honest = h.honest;
}
Step-IsSafe (sleep s front back w e a b c d) room h = record {
  on_disk_le = h.on_disk_le;
  synced_le = h.synced_le;
  leader_fits =
      answer-LeaderFits s (front ++ (record w { stage = asleep } ∷ back)) s.leader h.leader_fits;
  honest = All-replace (IsHonest s.on_disk) s.waiters front back w _ e h.honest (λ done. cc done);
}
Step-IsSafe (elect s front back w e a b c d) room h = record {
  on_disk_le = h.on_disk_le;
  synced_le = h.synced_le;
  leader_fits = tt;
  honest = All-replace (IsHonest s.on_disk) s.waiters front back w _ e h.honest (λ done. cc done);
}
Step-IsSafe (capture s l) room h = record {
  on_disk_le = h.on_disk_le;
  synced_le = h.synced_le;
  leader_fits = (omega arith, omega arith, λ lt. absurd (omega (arith, lt)));
  honest = h.honest;
}
Step-IsSafe (sync s file cover c b l) room h = sync-IsSafe s file cover c b l h
Step-IsSafe (publish s cover e l) room h = publish-IsSafe s cover e l h
Step-IsSafe (swap s open_db clean) room h = record {
  on_disk_le = omega arith;
  synced_le = ground (arith, h.synced_le, h.on_disk_le);
  leader_fits =
      swap-LeaderFits s (record s.gsync { synced = raise s.gsync.synced s.append_seq })
        (map awake s.waiters) s.leader h.on_disk_le h.leader_fits;
  honest = marked-IsHonest s h;
}
Step-IsSafe (mark s) room h = record {
  on_disk_le = omega arith;
  synced_le = ground (arith, h.synced_le, h.on_disk_le);
  leader_fits =
      mark-LeaderFits s (record s.gsync { synced = raise s.gsync.synced s.append_seq })
        (map awake s.waiters) s.leader h.on_disk_le h.leader_fits;
  honest = marked-IsHonest s h;
}
Step-IsSafe (close s) room h = record {
  on_disk_le = h.on_disk_le;
  synced_le = h.synced_le;
  leader_fits = close-LeaderFits s s.leader h.leader_fits;
  honest = h.honest;
}
Step-IsSafe (answer s front back w r e a done) room h = record {
  on_disk_le = h.on_disk_le;
  synced_le = h.synced_le;
  leader_fits =
      answer-LeaderFits s (front ++ (record w { stage = told r } ∷ back)) s.leader h.leader_fits;
  honest =
      All-replace (IsHonest s.on_disk) s.waiters front back w _ e h.honest
        (IsHonest-answer_of s.on_disk w r s.gsync h.synced_le done);
}

sync-append_seq :
    (s : System) (file cover : ℕ) (was_closed sync_ok : Bool)
    → (sync_result file cover was_closed sync_ok s).append_seq ≡ s.append_seq
unfolding sync_result
sync-append_seq s file cover was_closed sync_ok = ground arith

Step-append_seq :
    {s t : System} (st : Step s t)
    → s.append_seq + step_appends st < 2 ^ 64
    → t.append_seq ≡ s.append_seq + step_appends st
unfolding step_appends marked publish_result
Step-append_seq (append s open_db clean) room = omega (arith, room)
Step-append_seq (tear s open_db clean) room = omega arith
Step-append_seq (sleep s front back w e a b c d) room = omega arith
Step-append_seq (elect s front back w e a b c d) room = omega arith
Step-append_seq (capture s l) room = omega arith
Step-append_seq (sync s file cover c b l) room = omega (arith, sync-append_seq s file cover c b)
Step-append_seq (publish s cover e l) room = omega arith
Step-append_seq (swap s open_db clean) room = omega arith
Step-append_seq (mark s) room = omega arith
Step-append_seq (close s) room = omega arith
Step-append_seq (answer s front back w r e a done) room = omega arith

-- The counter is the number of appends, as long as there are fewer than 2 ^ 64.
Reach-IsSafe :
    {s : System} (r : Reach s) → appends r < 2 ^ 64 → IsSafe s × (s.append_seq ≡ appends r)
unfolding appends
Reach-IsSafe here few = (opened_system-IsSafe, refl)
Reach-IsSafe (next {s} {t} r st) few =
    let (safe, count) = Reach-IsSafe r (omega (arith, few)) in
    let room : s.append_seq + step_appends st < 2 ^ 64 = omega (arith, count, few) in
    (Step-IsSafe st room safe, omega (arith, count, Step-append_seq st room))

-- In every state that committers, leaders, failed appends, syncs, compactions that swap the log,
-- `Sync` and `Close` reach in any order by fewer than 2 ^ 64 appends, each committer that was told
-- `nil` has its append on the disk, in the file that is live, and no sync is counted that did not
-- happen.
pub Reach-IsHonest :
    (s : System) (r : Reach s)
    → appends r < 2 ^ 64
    → All (IsHonest s.on_disk) s.waiters × (s.gsync.synced ≤ s.on_disk) × (s.on_disk ≤ s.append_seq)
Reach-IsHonest s r few = let h = (Reach-IsSafe r few).0 in (h.honest, h.synced_le, h.on_disk_le)
