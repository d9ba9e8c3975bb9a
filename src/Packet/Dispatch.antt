-- ===== src/Packet/Dispatch.antt =====
-- Dispatching a packet to the hooks (proxy/dispatch.go).
use rhine.Prelude.{codes, ◌∷◌, [], List, Bytes}
use rhine.Packet.Hook.{hooks_at, PacketHook, HookMap}

-- What a handler does with the state `S` of the modules: it returns a packet, or it panics.
pub data Handled (S : Type 0) : Type 0 where
  returned : S → Bytes → Handled S
  panicked : S → Handled S

-- `PacketHandler`, by the operation and the packet.
abbrev pub Handler : Type 0 → Type 0
Handler S = Bytes → Bytes → S → Handled S

-- The state behind a call, and the data that the next hook gets.
module _ {S : Type 0} where
  -- A recovered panic leaves the unnamed result at the nil slice.
  abbrev pub recovered : Handled S → S × Bytes
  recovered (returned s out) = (s, out)
  recovered (panicked s) = (s, [])

  -- `hookWrapper`.
  unfoldable pub hook_wrapper : PacketHook (Handler S) → Bytes → Bytes → S → S × Bytes
  hook_wrapper hook op packet s = recovered (hook.handler op packet s)

  -- The loops over the hooks of one target.
  unfoldable pub run_hooks : List (PacketHook (Handler S)) → Bytes → Bytes → S → S × Bytes
  unfolding hook_wrapper
  run_hooks [] op packet s = (s, packet)
  run_hooks (hook ∷ hooks) op packet s =
      let (s', out) = hook_wrapper hook op packet s in run_hooks hooks op out s'

  -- The core handlers see the packet as it came, and return nothing.
  unfoldable pub run_core : List (Bytes → Bytes → S → S) → Bytes → Bytes → S → S
  run_core [] op packet s = s
  run_core (core ∷ cores) op packet s = run_core cores op packet (core op packet s)

  -- The method `dispatch`; what the last hook returns is dropped.
  unfoldable pub dispatch :
      List (Bytes → Bytes → S → S) → HookMap (Handler S) → Bytes → Bytes → S → S
  unfolding run_core run_hooks
  dispatch cores m op packet s =
      let s₁ = run_core cores op packet s in
      let (s₂, packet₂) = run_hooks (hooks_at m (codes "*")) op packet s₁ in
      let (s₃, packet₃) = run_hooks (hooks_at m op) op packet₂ s₂ in s₃
