-- ===== src/Db/Group/Progress.antt =====
-- No wake-up is lost: a committer that is asleep has a leader at work, who will wake it.
use btypedb.Prelude.{
  ℕ, ◌<◌, ◌≡◌, ◌∙◌, refl, ap, sym, Bool, true, false, Option, none, some, Error, arith, List, [],
  ◌∷◌, All, All-append, All-mono, All-replace, map,
}
use btypedb.Db.Handle.{GroupSync}
use btypedb.Db.Group.{
  Stage, running, asleep, leading, told, Waiter, Leader, System, sync_result, publish_result,
  marked, awake, released, Step, append, tear, sleep, elect, capture, sync, publish, swap, mark,
  close, answer, Reach, here, next,
}

abbrev is_led : Option Leader → Bool
is_led none = false
is_led (some _) = true

-- `gs.syncing` says that there is a leader.
abbrev IsLed : System → Type 0
IsLed s = s.gsync.syncing ≡ is_led s.leader

sync-IsLed :
    (s : System) (file cover : ℕ) (was_closed sync_ok : Bool)
    → s.gsync.syncing ≡ true
    → IsLed (sync_result file cover was_closed sync_ok s)
unfolding sync_result
sync-IsLed s file cover was_closed sync_ok h = ground (arith, h)

publish-IsLed : (s : System) (cover : ℕ) (e : Option Error) → IsLed (publish_result cover e s)
unfolding publish_result
publish-IsLed s cover none = refl
publish-IsLed s cover (some e) = refl

Step-IsLed : {s t : System} → Step s t → IsLed s → IsLed t
unfolding marked
Step-IsLed (append s open_db clean) h = h
Step-IsLed (tear s open_db clean) h = h
Step-IsLed (sleep s front back w e a b c d) h = h
Step-IsLed (elect s front back w e a b c d) h = refl
Step-IsLed (capture s l) h = h ∙ ap is_led l
Step-IsLed (sync s file cover c b l) h = sync-IsLed s file cover c b (h ∙ ap is_led l)
Step-IsLed (publish s cover e l) h = publish-IsLed s cover e
Step-IsLed (swap s open_db clean) h = h
Step-IsLed (mark s) h = h
Step-IsLed (close s) h = h
Step-IsLed (answer s front back w r e a done) h = h

Reach-IsLed : {s : System} → Reach s → IsLed s
Reach-IsLed here = refl
Reach-IsLed (next r st) = Step-IsLed st (Reach-IsLed r)

-- A committer that sleeps has reason to: a sync is in flight, its append is not covered yet, and
-- nothing has failed.
abbrev SleepsWell : GroupSync → Waiter → Type 0
SleepsWell g w = w.stage ≡ asleep → (g.syncing ≡ true) × (g.synced < w.seq) × (g.failure ≡ none)

awake-SleepsWell : (g : GroupSync) (ws : List Waiter) → All (SleepsWell g) (map awake ws)
awake-SleepsWell g [] = tt
awake-SleepsWell g (w ∷ ws) = (not_asleep w.stage, awake-SleepsWell g ws)
  where
    not_asleep : (c : Stage) → SleepsWell g (awake (record { seq = w.seq; stage = c }))
    not_asleep running e = cc e
    not_asleep asleep e = cc e
    not_asleep leading e = cc e
    not_asleep (told r) e = cc e

sync-SleepsWell :
    (s : System) (file cover : ℕ) (was_closed sync_ok : Bool)
    → All (SleepsWell s.gsync) s.waiters
    → All
        (SleepsWell (sync_result file cover was_closed sync_ok s).gsync)
        (sync_result file cover was_closed sync_ok s).waiters
unfolding sync_result
sync-SleepsWell s file cover was_closed sync_ok h =
    let same_gsync : (sync_result file cover was_closed sync_ok s).gsync ≡ s.gsync = ground arith in
    let same_waiters : (sync_result file cover was_closed sync_ok s).waiters ≡ s.waiters =
      ground arith in
    rw (same_gsync, same_waiters) h

Step-SleepsWell :
    {s t : System}
    → Step s t
    → All (SleepsWell s.gsync) s.waiters
    → All (SleepsWell t.gsync) t.waiters
unfolding marked publish_result
Step-SleepsWell (append s open_db clean) h =
    All-append (SleepsWell s.gsync) s.waiters _ h ((λ e. cc e), tt)
Step-SleepsWell (tear s open_db clean) h = h
Step-SleepsWell (sleep s front back w e a b c d) h =
    All-replace (SleepsWell s.gsync) s.waiters front back w _ e h (λ _. (d, b, c))
Step-SleepsWell (elect s front back w e a b c d) h =
    let g : GroupSync = record s.gsync { syncing = true } in
    All-replace (SleepsWell g) s.waiters front back w _ e
      (All-mono (SleepsWell s.gsync) (SleepsWell g) s.waiters
        (λ v f down. (refl, (f down).1, (f down).2)) h)
      (λ down. cc down)
Step-SleepsWell (capture s l) h = h
Step-SleepsWell (sync s file cover c b l) h = sync-SleepsWell s file cover c b h
Step-SleepsWell (publish s cover e l) h = awake-SleepsWell _ (map released s.waiters)
Step-SleepsWell (swap s open_db clean) h = awake-SleepsWell _ s.waiters
Step-SleepsWell (mark s) h = awake-SleepsWell _ s.waiters
Step-SleepsWell (close s) h = h
Step-SleepsWell (answer s front back w r e a done) h =
    All-replace (SleepsWell s.gsync) s.waiters front back w _ e h (λ down. cc down)

Reach-SleepsWell : {s : System} → Reach s → All (SleepsWell s.gsync) s.waiters
Reach-SleepsWell here = tt
Reach-SleepsWell (next r st) = Step-SleepsWell st (Reach-SleepsWell r)

led : (s : System) → IsLed s → s.gsync.syncing ≡ true → (l : Leader) × (s.leader ≡ some l)
led s h e = by_leader s.leader (sym h ∙ e)
  where
    by_leader : (x : Option Leader) → is_led x ≡ true → (l : Leader) × (x ≡ some l)
    by_leader none h = cc h
    by_leader (some l) h = (l, refl)

-- A committer that is asleep waits for a leader that is there, and would not go on if it woke up.
abbrev pub IsAwaited : System → Waiter → Type 0
IsAwaited s w =
    w.stage ≡ asleep
    → ((l : Leader) × (s.leader ≡ some l)) × (s.gsync.synced < w.seq) × (s.gsync.failure ≡ none)

-- In every state that is reached, a committer that is asleep in cond.Wait has a leader at work; its
-- append is not covered by a sync that was counted, and no sync has failed: no wake-up was lost.
pub Reach-IsAwaited : (s : System) → Reach s → All (IsAwaited s) s.waiters
Reach-IsAwaited s r =
    All-mono (SleepsWell s.gsync) (IsAwaited s) s.waiters
      (λ w f down. (led s (Reach-IsLed r) (f down).0, (f down).1, (f down).2)) (Reach-SleepsWell r)
