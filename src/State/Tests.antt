-- ===== src/State/Tests.antt =====
-- The theorems at states that are reached with a small codec.
use rhine.State.Sample.{codec, world, path}
use rhine.State.Store.{
  take_hook, Attached, hook, sync_task, handle_sync_data, delta_task, get_state_ref, handle,
  run_task, GameState, new_state,
}
use rhine.Scanner.State.{zero_scanner}
use rhine.Prelude.{◌∷◌, refl, false, codes, some, [], bytes_eq, true, ◌≡◌}
use rhine.State.Phase.{Settled, Phase}
use rhine.State.Calls.{unhook}
use rhine.State.Unhook.{unhook-IsUnhooked, IsUnhooked}
use rhine.State.Reference.{get-Agree, Agree}
use rhine.State.Mirror.{get_state_ref-mirror_of, mirror_of}
use Prim.Native.Nat.{ℕ}
use rhine.State.Steps.{take_step, hook_step, task_step, packet_step, start, next, Reachable}
use rhine.State.Invariant.{Reachable_task-Settled, Reachable-Phase}
use rhine.State.Queue.{pending-accepted, accepted, pending}

abbrev synced : GameState ℕ ℕ ℕ
synced = record (new_state world) { loaded = true; tasks = sync_task (codes "{}") ∷ [] }

abbrev settled : GameState ℕ ℕ ℕ
settled = record (new_state world) { loaded = true; locked = false; state = some 2 }

abbrev changing : GameState ℕ ℕ ℕ
changing = record settled {
  locked = true;
  tasks = delta_task (codes "{\"a\":1}") (codes "S/quest") ∷ [];
}

synced-Reachable : Reachable codec world synced
unfolding handle bytes_eq
synced-Reachable = next start (packet_step (codes "S/account/syncData") (codes "{}") synced refl)

settled-Reachable : Reachable codec world settled
unfolding run_task handle_sync_data
settled-Reachable =
    next synced-Reachable
      (task_step zero_scanner path [] [] (sync_task (codes "{}")) settled refl refl)

changing-Reachable : Reachable codec world changing
unfolding handle
changing-Reachable =
    next settled-Reachable (packet_step (codes "S/quest") (codes "{\"a\":1}") changing refl)

Reachable-Phase_example : Phase changing
Reachable-Phase_example = Reachable-Phase codec world changing changing-Reachable

Reachable_task-Settled_example : Settled (
    run_task codec zero_scanner path
      (delta_task (codes "{\"a\":1}") (codes "S/quest"))
      (record settled { locked = true }))
Reachable_task-Settled_example =
    Reachable_task-Settled codec zero_scanner path world changing [] []
      (delta_task (codes "{\"a\":1}") (codes "S/quest")) changing-Reachable refl

abbrev level_hook : Attached
level_hook = record {
  id = 1;
  hook = record {
    target = codes "status.level";
    module_name = codes "test";
    listener = 7;
    event = true;
  };
}

abbrev hooked : GameState ℕ ℕ ℕ
hooked = record settled { taken = some level_hook }

hooked-Reachable : Reachable codec world hooked
unfolding hook take_hook
hooked-Reachable = next (next settled-Reachable (hook_step level_hook)) (take_step hooked refl)

pending-accepted_example :
    pending (codes "status.level") hooked ≡ accepted codec (codes "status.level") hooked-Reachable
pending-accepted_example =
    pending-accepted codec world hooked (codes "status.level") hooked-Reachable

unhook-IsUnhooked_example : IsUnhooked level_hook hooked (unhook (some level_hook) hooked)
unhook-IsUnhooked_example = unhook-IsUnhooked level_hook hooked

get-Agree_example : Agree codec (codes "status.level") settled
get-Agree_example = get-Agree codec world settled (codes "status.level") settled-Reachable

get_state_ref-mirror_of_example : some 2 ≡ mirror_of codec settled-Reachable
unfolding get_state_ref
get_state_ref-mirror_of_example =
    get_state_ref-mirror_of codec world settled (some 2) settled-Reachable refl
