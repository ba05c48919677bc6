-- ===== src/Tests/Groups.antt =====
-- Two appends that one sync covers, at a concrete run: the second committer sleeps meanwhile.
use btypedb.Prelude.{◌<◌, ◌^◌, ◌≤◌, refl, true, false, none, some, List, [], ◌∷◌, ok, All, arith}
use btypedb.Db.Group.{
  System, Stage, running, asleep, leading, told, captured, append, sleep, elect, capture, sync,
  publish, answer, sync_result, publish_result, Reach, here, next, opened_system, Waiter, appends,
  step_appends,
}
use btypedb.Db.Group.Safety.{IsHonest, Reach-IsHonest}
use btypedb.Db.Group.Progress.{IsAwaited, Reach-IsAwaited}

abbrev two_waiters : Stage → Stage → List Waiter
two_waiters a b = record { seq = 1; stage = a } ∷ record { seq = 2; stage = b } ∷ []

abbrev appended_twice : System
appended_twice = record opened_system { append_seq = 2; waiters = two_waiters running running }

appended_twice-Reach : Reach appended_twice
appended_twice-Reach = next (next here (append opened_system refl refl)) (append _ refl refl)

-- The first committer leads, and the second one sleeps.
abbrev led_by_first : System
led_by_first = record appended_twice {
  leader = some (captured 0 2 false);
  gsync = record { synced = 0; syncing = true; failure = none };
  waiters = two_waiters leading asleep;
}

led_by_first-Reach : Reach led_by_first
led_by_first-Reach =
    next
      (next
        (next appended_twice-Reach (
          elect appended_twice [] (record { seq = 2; stage = running } ∷ [])
            (record { seq = 1; stage = running }) refl refl (omega arith) refl refl))
        (sleep _ (record { seq = 1; stage = leading } ∷ []) [] (record { seq = 2; stage = running })
          refl refl (omega arith) refl refl))
      (capture _ refl)

abbrev synced_both : System
synced_both = record appended_twice {
  on_disk = 2;
  gsync = record { synced = 2; syncing = false; failure = none };
}

synced_both-Reach : Reach synced_both
unfolding sync_result publish_result
synced_both-Reach =
    next (next led_by_first-Reach (sync led_by_first 0 2 false true refl))
      (publish (sync_result 0 2 false true led_by_first) 2 none refl)

abbrev answered_second : System
answered_second = record synced_both { waiters = two_waiters running (told (ok tt)) }

answered_second-Reach : Reach answered_second
answered_second-Reach = next synced_both-Reach (
    answer synced_both (record { seq = 1; stage = running } ∷ []) []
      (record { seq = 2; stage = running }) (ok tt) refl refl refl)

few : appends answered_second-Reach < 2 ^ 64
unfolding appends step_appends answered_second-Reach synced_both-Reach led_by_first-Reach
    appended_twice-Reach
few = omega arith

Reach-IsHonest_example : All (IsHonest 2) answered_second.waiters × (2 ≤ 2) × (2 ≤ 2)
Reach-IsHonest_example = Reach-IsHonest answered_second answered_second-Reach few

Reach-IsAwaited_example : All (IsAwaited led_by_first) led_by_first.waiters
Reach-IsAwaited_example = Reach-IsAwaited led_by_first led_by_first-Reach
