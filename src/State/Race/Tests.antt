-- ===== src/State/Race/Tests.antt =====
-- Racing calls with a small codec.
use rhine.State.Sample.{codec, world, path}
use rhine.State.Store.{new_state, sync_task, run_task}
use rhine.State.Race.{
  Racing, RaceReachable, start, next, call, read, spawn, set_loaded, wants_lock, reads, Crashes,
  two_syncs-Crashes,
}
use rhine.State.Race.Counts.{sync_op}
use rhine.State.Race.Safe.{Freed}
use rhine.State.Race.Single.{race_task-Freed, sync_calls}
use rhine.Scanner.State.{zero_scanner}
use rhine.Prelude.{arith, [], ◌≤◌, ◌∷◌, bytes_eq, ℕ, true, codes, refl}

-- The sync runs, and a delta waits for the lock.
abbrev racing : Racing ℕ ℕ ℕ
racing = record {
  game = record (new_state world) { loaded = true; tasks = sync_task (codes "{}") ∷ [] };
  calls = wants_lock (codes "S/quest") (codes "{\"a\":1}") ∷ [];
}

racing-Reachable : RaceReachable codec zero_scanner path world racing
unfolding reads bytes_eq
racing-Reachable =
    next
      (next
        (next
          (next
            (next (next start (call (codes "S/account/syncData") (codes "{}")))
              (read [] [] (codes "S/account/syncData") (codes "{}") refl))
            (spawn [] [] (codes "{}") refl))
          (set_loaded [] [] refl))
        (call (codes "S/quest") (codes "{\"a\":1}")))
      (read [] [] (codes "S/quest") (codes "{\"a\":1}") refl)

racing-one : sync_calls codec zero_scanner path racing-Reachable ≤ 1
unfolding racing-Reachable sync_calls sync_op reads bytes_eq
racing-one = omega arith

race_task-Freed_example : Freed (
    run_task codec zero_scanner path
      (sync_task (codes "{}"))
      (record (new_state world) { loaded = true }))
race_task-Freed_example =
    race_task-Freed codec zero_scanner path world racing [] [] (sync_task (codes "{}"))
      racing-Reachable racing-one refl

two_syncs-Crashes_example : Crashes codec zero_scanner path world (sync_task (codes "{\"b\":2}"))
two_syncs-Crashes_example =
    two_syncs-Crashes codec zero_scanner path world (codes "{}") (codes "{\"b\":2}")
