-- ===== src/State/Calls.antt =====
-- The methods of `GameState` and `GameStateHook` that a module calls besides `Hook` and
-- `GetStateRef` (proxy/gamestate/gamestate.go, gamestate_hook.go).
use rhine.State.Store.{GameState, Attached, Codec}
use rhine.Slices.{count_before, cut_at}
use rhine.Walk.Notify.{Looked}
use rhine.Prelude.{List, ◌==◌, Option, none, some, Bytes, bytes_eq, if◌then◌else◌, Bool}

-- A call waits for the lock, panics, or returns.
pub data Called (A : Type 0) : Type 0 where
  waits : Called A
  panics : Called A
  returns : A → Called A

-- The comparison of the pointers.
abbrev pub is_same : Attached → Attached → Bool
is_same old h = h.id == old.id

-- The slice of a target behind the loop and the `append` of `Unhook`.
unfoldable pub without : Attached → List Attached → List Attached
without old hooks = cut_at (count_before (is_same old) hooks) hooks

module _ {U P E : Type 0} where
  -- `StateSync`.
  unfoldable pub state_sync : GameState U P E → Called Unit
  state_sync g = if g.locked then waits else returns tt

  -- `GameStateHook.Unhook`, which reads the field `gs` of a nil hook.
  unfoldable pub unhook : Option Attached → GameState U P E → Called (GameState U P E)
  unhook none g = panics
  unhook (some old) g =
      if g.locked
      then waits
      else returns (record g {
        state_hooks = λ path.
            if bytes_eq old.hook.target path
            then without old (g.state_hooks path)
            else g.state_hooks path;
      })

module _ {U P E : Type 0} (codec : Codec U P E) where
  -- The lookup on the state, if it is there.
  abbrev pub look_at : Bytes → Option U → Called (Option (Looked P E))
  look_at path none = returns none
  look_at path (some user) = returns (some (codec.lookup user path))

  -- `Get`, with `none` for a lookup on the nil state, which is up to go-lookup.
  unfoldable pub get : Bytes → GameState U P E → Called (Option (Looked P E))
  get path g = if g.locked then waits else look_at path g.state
