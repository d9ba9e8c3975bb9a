-- ===== src/State/Store.antt =====
-- The fields of `GameState` and its methods (proxy/gamestate/gamestate.go, gamestate_hook.go).
use rhine.Prelude.{
  ◌^◌, codes, ◌<◌, map, [], some, true, ◌++◌, ◌≡◌, ◌∷◌, none, length, Bytes, Bool, List, false, ℕ,
  Option, ltb, bytes_eq, if◌then◌else◌,
}
use rhine.Walk.Notify.{StateHook, World, Looked}
use rhine.Walk.Loop.{KeyPath, Round, WalkError, stop, go, fault, walk_and_notify}
use rhine.Scanner.State.{Scanner}

abbrev pub hook_queue_max : ℕ
hook_queue_max = 100

-- What the code calls of other packages: gjson on "playerDataDelta.modified", the decoding into a
-- `User` and whether it fails, the merge into the state, which may fail half-way, and the lookup.
pub record Codec (U P E : Type 0) : Type 0 where
  pub modified : Bytes → Option Bytes
  pub unmarshal_sync : Bytes → U × Bool
  pub unmarshal_user : Bytes → U × Bool
  pub merge : U → U → U × Bool
  pub lookup : U → Bytes → Looked P E
  -- The length of a Go string is an `int`.
  pub modified-length : (data_in raw : Bytes) → modified data_in ≡ some raw → length raw < 2 ^ 64

-- A hook with its pointer.
pub record Attached : Type 0 where
  pub id : ℕ
  pub hook : StateHook

-- The goroutines that `handle` starts.
pub data Task : Type 0 where
  sync_task : Bytes → Task
  delta_task : Bytes → Bytes → Task

pub data Warning (E : Type 0) : Type 0 where
  bad_sync : Bytes → Warning E
  bad_delta : Bytes → Bytes → Warning E
  merge_failed : Bytes → Warning E
  notify_failed : WalkError E → Warning E
  queue_full : Attached → Warning E

-- `locked` is `stateMutex`; `tasks` are the goroutines that run, and `taken` is the hook that
-- `parseHookQueue` has received and not yet attached.
pub record GameState (U P E : Type 0) : Type 0 where
  pub loaded : Bool
  pub locked : Bool
  pub state : Option U
  pub tasks : List Task
  pub queue : List Attached
  pub taken : Option Attached
  pub state_hooks : Bytes → List Attached
  pub world : World P
  pub log : List (Warning E)

-- A goroutine ends, or it brings the program down.
pub data Ran (U P E : Type 0) : Type 0 where
  done : GameState U P E → Ran U P E
  crashed : Ran U P E

abbrev pub warn_if : {E : Type 0} → Bool → Warning E → List (Warning E) → List (Warning E)
warn_if failed warning log = if failed then log ++ warning ∷ [] else log

module _ {U P E : Type 0} where
  -- `New`, which returns with the lock held.
  abbrev pub new_state : World P → GameState U P E
  new_state world = record {
    loaded = false;
    locked = true;
    state = none;
    tasks = [];
    queue = [];
    taken = none;
    state_hooks = λ path. [];
    world = world;
    log = [];
  }

  -- `Unlock` of a mutex that is not locked is a fatal error.
  abbrev pub unlock : GameState U P E → Ran U P E
  unlock g = if g.locked then done (record g { locked = false }) else crashed

  -- `handle`, with `none` while it has to wait for the lock.
  unfoldable pub handle : Bytes → Bytes → GameState U P E → Option (GameState U P E)
  handle op packet g =
      if g.loaded
      then if g.locked
        then none
        else some (record g { locked = true; tasks = g.tasks ++ delta_task packet op ∷ [] })
      else if bytes_eq op (codes "S/account/syncData")
      then some (record g { loaded = true; tasks = g.tasks ++ sync_task packet ∷ [] })
      else some g

  -- `Hook`: into the queue, or a warning if it is full.
  unfoldable pub hook : Attached → GameState U P E → GameState U P E
  hook h g =
      if ltb (length g.queue) hook_queue_max
      then record g { queue = g.queue ++ h ∷ [] }
      else record g { log = g.log ++ queue_full h ∷ [] }

  -- The two halves of a round of `parseHookQueue`: the receive, and the critical section; `none` is
  -- a wait.
  unfoldable pub take_from :
      List Attached → Option Attached → GameState U P E → Option (GameState U P E)
  take_from (h ∷ queue) none g = some (record g { queue = queue; taken = some h })
  take_from _ _ g = none

  unfoldable pub take_hook : GameState U P E → Option (GameState U P E)
  unfolding take_from
  take_hook g = take_from g.queue g.taken g

  unfoldable pub attach_taken : Option Attached → GameState U P E → Option (GameState U P E)
  attach_taken none g = none
  attach_taken (some h) g =
      if g.locked
      then none
      else some (record g {
        taken = none;
        state_hooks = λ path.
            if bytes_eq h.hook.target path
            then g.state_hooks path ++ h ∷ []
            else g.state_hooks path;
      })

  unfoldable pub attach_hook : GameState U P E → Option (GameState U P E)
  unfolding attach_taken
  attach_hook g = attach_taken g.taken g

  -- `GetStateRef`, with `none` while it waits; the reference may be nil.
  unfoldable pub get_state_ref : GameState U P E → Option (Option U)
  get_state_ref g = if g.locked then none else some g.state

  -- The end of `parseDataDelta`, behind `WalkAndNotify`; its result is never `go`.
  unfoldable pub after_walk : GameState U P E → Round P E → Ran U P E
  after_walk g (go w) = crashed
  after_walk g (stop w none) = unlock (record g { world = w.world })
  after_walk g (stop w (some e)) =
      unlock (record g { world = w.world; log = g.log ++ notify_failed e ∷ [] })
  after_walk g fault = crashed

module _ {U P E : Type 0} (codec : Codec U P E) (pooled : Scanner) (path : KeyPath) where
  -- `handleSyncData`.
  unfoldable pub handle_sync_data : Bytes → GameState U P E → Ran U P E
  handle_sync_data packet g =
      let (user, failed) = codec.unmarshal_sync packet in
      unlock (record g { state = some user; log = warn_if failed (bad_sync packet) g.log })

  -- The merge into the state, which must not be nil, and the walk over the same bytes.
  unfoldable pub merge_delta : Bytes → Bytes → Bytes → Option U → GameState U P E → Ran U P E
  unfolding after_walk
  merge_delta packet op raw none g = crashed
  merge_delta packet op raw (some old) g =
      let (user, bad) = codec.unmarshal_user raw in
      let (merged, failed) = codec.merge old user in
      let log = warn_if failed (merge_failed op) (warn_if bad (bad_delta op packet) g.log) in
      after_walk (record g { state = some merged; log = log })
        (walk_and_notify (codec.lookup merged)
          (λ target. map (λ (h : Attached). h.hook) (g.state_hooks target)) raw pooled path g.world)

  unfoldable pub delta_of : Bytes → Bytes → Option Bytes → GameState U P E → Ran U P E
  unfolding merge_delta
  delta_of packet op none g = unlock g
  delta_of packet op (some raw) g = merge_delta packet op raw g.state g

  -- `parseDataDelta`.
  unfoldable pub parse_data_delta : Bytes → Bytes → GameState U P E → Ran U P E
  unfolding delta_of
  parse_data_delta packet op g = delta_of packet op (codec.modified packet) g

  unfoldable pub run_task : Task → GameState U P E → Ran U P E
  unfolding handle_sync_data parse_data_delta
  run_task (sync_task packet) g = handle_sync_data packet g
  run_task (delta_task packet op) g = parse_data_delta packet op g
