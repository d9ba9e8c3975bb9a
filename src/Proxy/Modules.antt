-- ===== src/Proxy/Modules.antt =====
-- The modules of one user: `Hook`, `StateHook` and `OnShutdown` of proxy/module.go, and `initMods`
-- of proxy/dispatch.go.
pub mod Init
use rhine.Packet.Hook.{PacketHook, HookMap, Sorter, insert_hook, sort_hooks}
use rhine.State.Store.{GameState, Attached, hook, new_state}
use rhine.Prelude.{Option, [], none, Bool, some, true, ◌∷◌, false, ℤ, List, Bytes, ◌++◌}
use Prim.Native.Nat.{ℕ}

-- `RhineModule`; a callback for the shutdown is a name.
pub record RhineModule (H : Type 0) : Type 0 where
  pub region : Bytes
  pub uid : ℤ
  pub name : Bytes
  pub initialized : Bool
  pub shutdown_cb : Option ℕ
  pub hooks : List (PacketHook H)

-- The type `dispatch`.
pub record Dispatch (H U P E : Type 0) : Type 0 where
  pub uid : ℤ
  pub region : Bytes
  pub hooks : HookMap H
  pub modules : List (RhineModule H)
  pub initialized : Bool
  pub state : GameState U P E

-- The calls that a module's function makes: `Hook`, `StateHook` and `OnShutdown`. The number is the
-- pointer that a hook gets.
pub data ModuleCall (H : Type 0) : Type 0 where
  hook_call : ℕ → Bytes → ℤ → H → ModuleCall H
  state_hook_call : ℕ → Bytes → ℕ → Bool → ModuleCall H
  on_shutdown_call : ℕ → ModuleCall H

-- `initFunc`, by the calls of its function.
pub record InitFunc (H : Type 0) : Type 0 where
  pub name : Bytes
  pub fun : List (ModuleCall H)

module _ {H U P E : Type 0} where
  -- `StateHook`.
  unfoldable pub state_hook :
      ℕ → Bytes → ℕ → Bool → RhineModule H → Dispatch H U P E → Dispatch H U P E
  state_hook id target listener event m d = record d {
    state =
        hook
          (record {
            id = id;
            hook = record {
              target = target;
              module_name = m.name;
              listener = listener;
              event = event;
            };
          })
          d.state;
  }

-- `OnShutdown`.
unfoldable pub on_shutdown : {H : Type 0} → ℕ → RhineModule H → RhineModule H
on_shutdown cb m = record m { shutdown_cb = some cb }

abbrev pub new_module : {H U P E : Type 0} → InitFunc H → Dispatch H U P E → RhineModule H
new_module mod_func d = record {
  region = d.region;
  uid = d.uid;
  name = mod_func.name;
  initialized = false;
  shutdown_cb = none;
  hooks = [];
}

module _ {H U P E : Type 0} (sorter : Sorter H) where
  -- `Hook` of a module.
  unfoldable pub module_hook :
      PacketHook H → RhineModule H → Dispatch H U P E → RhineModule H × Dispatch H U P E
  module_hook h m d = (
    record m { hooks = m.hooks ++ h ∷ [] },
    record d { hooks = insert_hook sorter d.initialized h d.hooks },
  )

  unfoldable pub run_call :
      ModuleCall H → RhineModule H → Dispatch H U P E → RhineModule H × Dispatch H U P E
  unfolding module_hook state_hook on_shutdown
  run_call (hook_call id target priority handler) m d =
      module_hook
        (record {
          id = id;
          target = target;
          priority = priority;
          handler = handler;
          module_name = m.name;
        })
        m d
  run_call (state_hook_call id target listener event) m d =
      (m, state_hook id target listener event m d)
  run_call (on_shutdown_call cb) m d = (on_shutdown cb m, d)

  unfoldable pub run_calls :
      List (ModuleCall H) → RhineModule H → Dispatch H U P E → RhineModule H × Dispatch H U P E
  unfolding run_call
  run_calls [] m d = (m, d)
  run_calls (call ∷ calls) m d = let (m', d') = run_call call m d in run_calls calls m' d'

  -- A round of the loop of `initMods`.
  unfoldable pub init_mod : InitFunc H → Dispatch H U P E → Dispatch H U P E
  unfolding run_calls
  init_mod mod_func d =
      let (m, d') = run_calls mod_func.fun (new_module mod_func d) d in
      record d' { modules = d'.modules ++ record m { initialized = true } ∷ [] }

  unfoldable pub load_mods : List (InitFunc H) → Dispatch H U P E → Dispatch H U P E
  unfolding init_mod
  load_mods [] d = d
  load_mods (f ∷ fs) d = load_mods fs (init_mod f d)

  -- `initMods`, of which the game state is new.
  unfoldable pub init_mods :
      List (InitFunc H) → GameState U P E → Dispatch H U P E → Dispatch H U P E
  unfolding load_mods
  init_mods mods gs d =
      let loaded = load_mods mods (record d { state = gs }) in
      record loaded { hooks = sort_hooks sorter loaded.hooks; initialized = true }
