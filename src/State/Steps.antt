-- ===== src/State/Steps.antt =====
-- The interleavings of the packets, the goroutines, the hooks and the modules of one `GameState`.
use rhine.State.Store.{
  Codec, GameState, Attached, Task, done, run_task, handle, hook, take_hook, attach_hook, new_state,
}
use rhine.State.Calls.{unhook, returns}
use rhine.Prelude.{ℕ, ◌∷◌, Bytes, List, ◌++◌, some, ◌≡◌}
use rhine.Scanner.State.{Scanner}
use rhine.Walk.Notify.{World}
use rhine.Walk.Loop.{KeyPath}

-- The channels when the modules have received from them, which gives them other room.
abbrev pub with_rooms : {P : Type 0} → (ℕ → ℕ) → World P → World P
with_rooms rooms world = record world {
  channels = λ id. record (world.channels id) { room = rooms id };
}

module _ {U P E : Type 0} (codec : Codec U P E) where
  -- One step. A goroutine runs whenever it likes, whichever others there are, with whatever scanner
  -- and path the pools give it. A module calls `Hook` and `Unhook`, and receives from its channels.
  pub data Step (g : GameState U P E) : GameState U P E → Type 0 where
    packet_step :
        (op packet : Bytes) (g' : GameState U P E) → handle op packet g ≡ some g' → Step g g'
    task_step :
        (pooled : Scanner) (path : KeyPath) (before behind : List Task) (task : Task)
        (g' : GameState U P E)
        → g.tasks ≡ before ++ task ∷ behind
        → run_task codec pooled path task (record g { tasks = before ++ behind }) ≡ done g'
        → Step g g'
    hook_step : (h : Attached) → Step g (hook h g)
    take_step : (g' : GameState U P E) → take_hook g ≡ some g' → Step g g'
    attach_step : (g' : GameState U P E) → attach_hook g ≡ some g' → Step g g'
    unhook_step : (h : Attached) (g' : GameState U P E) → unhook (some h) g ≡ returns g' → Step g g'
    receive_step : (rooms : ℕ → ℕ) → Step g (record g { world = with_rooms rooms g.world })

  pub data Reachable (world : World P) : GameState U P E → Type 0 where
    start : Reachable world (new_state world)
    next : {g g' : GameState U P E} → Reachable world g → Step g g' → Reachable world g'
