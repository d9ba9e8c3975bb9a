-- ===== src/State/Race.antt =====
-- `handle` of proxy/gamestate/gamestate.go, called by several goroutines at once, as the server calls
-- it: each reads `loaded`, takes the lock or starts its goroutine, and writes `loaded`, at its own
-- pace. The steps of the hooks, which use none of these, are left out.
pub mod Counts
pub mod Safe
pub mod Single
mod Tests
use rhine.State.Store.{
  GameState, Codec, Task, sync_task, delta_task, run_task, handle_sync_data, new_state, done,
  crashed,
}
use rhine.Walk.Notify.{World}
use rhine.Scanner.State.{Scanner}
use rhine.Prelude.{
  refl, true, false, if◌then◌else◌, ◌≡◌, [], ◌++◌, ◌∷◌, codes, bytes_eq, List, Bytes, Bool,
}
use rhine.Walk.Loop.{KeyPath}

-- How far a call of `handle` has come.
pub data Call : Type 0 where
  called : Bytes → Bytes → Call
  wants_lock : Bytes → Bytes → Call
  syncs : Bytes → Call
  sets_loaded : Call

-- What a call does next, by what it reads of `loaded`.
unfoldable pub reads : Bool → Bytes → Bytes → List Call
reads true op packet = wants_lock op packet ∷ []
reads false op packet = if bytes_eq op (codes "S/account/syncData") then syncs packet ∷ [] else []

pub record Racing (U P E : Type 0) : Type 0 where
  pub game : GameState U P E
  pub calls : List Call

module _ {U P E : Type 0} (codec : Codec U P E) (pooled : Scanner) (path : KeyPath) where
  -- One step of one call, or a goroutine's run.
  pub data RaceStep (r : Racing U P E) : Racing U P E → Type 0 where
    call : (op packet : Bytes) → RaceStep r (record r { calls = r.calls ++ called op packet ∷ [] })
    read :
        (before behind : List Call) (op packet : Bytes)
        → r.calls ≡ before ++ called op packet ∷ behind
        → RaceStep r (record r { calls = before ++ reads r.game.loaded op packet ++ behind })
    lock :
        (before behind : List Call) (op packet : Bytes)
        → r.calls ≡ before ++ wants_lock op packet ∷ behind
        → r.game.locked ≡ false
        → RaceStep r (record {
          game = record r.game { locked = true; tasks = r.game.tasks ++ delta_task packet op ∷ [] };
          calls = before ++ behind;
        })
    spawn :
        (before behind : List Call) (packet : Bytes)
        → r.calls ≡ before ++ syncs packet ∷ behind
        → RaceStep r (record {
          game = record r.game { tasks = r.game.tasks ++ sync_task packet ∷ [] };
          calls = before ++ sets_loaded ∷ behind;
        })
    set_loaded :
        (before behind : List Call)
        → r.calls ≡ before ++ sets_loaded ∷ behind
        → RaceStep r (record { game = record r.game { loaded = true }; calls = before ++ behind })
    run :
        (before behind : List Task) (task : Task) (g : GameState U P E)
        → r.game.tasks ≡ before ++ task ∷ behind
        → run_task codec pooled path task (record r.game { tasks = before ++ behind }) ≡ done g
        → RaceStep r (record r { game = g })

  pub data RaceReachable (world : World P) : Racing U P E → Type 0 where
    start : RaceReachable world (record { game = new_state world; calls = [] })
    next : {r r' : Racing U P E} → RaceReachable world r → RaceStep r r' → RaceReachable world r'

  -- A goroutine that would bring the program down.
  pub data Crashes (world : World P) (task : Task) : Type 0 where
    crashes :
        (r : Racing U P E) (before behind : List Task)
        → RaceReachable world r
        → r.game.tasks ≡ before ++ task ∷ behind
        → run_task codec pooled path task (record r.game { tasks = before ++ behind }) ≡ crashed
        → Crashes world task

  sync : Bytes
  sync = codes "S/account/syncData"

  both_spawned :
      (world : World P) (first second : Bytes)
      → RaceReachable world (record {
        game = record (new_state world) { tasks = sync_task first ∷ sync_task second ∷ [] };
        calls = sets_loaded ∷ sets_loaded ∷ [];
      })
  unfolding sync reads bytes_eq
  both_spawned world first second =
      next
        (next
          (next
            (next (next (next start (call sync first)) (call sync second))
              (read [] (called sync second ∷ []) sync first refl))
            (read (syncs first ∷ []) [] sync second refl))
          (spawn [] (syncs second ∷ []) first refl))
        (spawn (sets_loaded ∷ []) [] second refl)

  -- Whatever the packets of two syncs are, if they are handled at the same time, the second one's
  -- goroutine can unlock the free mutex, which ends the program.
  pub two_syncs-Crashes :
      (world : World P) (first second : Bytes) → Crashes world (sync_task second)
  unfolding run_task handle_sync_data
  two_syncs-Crashes world first second =
      crashes _ [] []
        (next (both_spawned world first second)
          (run [] (sync_task second ∷ []) (sync_task first) _ refl refl))
        refl refl
