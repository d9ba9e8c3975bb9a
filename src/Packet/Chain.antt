-- ===== src/Packet/Chain.antt =====
-- The hooks that one packet runs through, and what a panic of one of them does to the rest.
use rhine.Prelude.{◌∙◌, refl, ap, sym, codes, [], ◌∷◌, ◌≡◌, ◌++◌, Bytes, List}
use rhine.Packet.Dispatch.{
  recovered, Handler, run_hooks, run_core, dispatch, hook_wrapper, panicked,
}
use rhine.Packet.Hook.{hooks_at, HookMap, PacketHook}

module _ {S : Type 0} where
  pub run_hooks-append :
      (ps qs : List (PacketHook (Handler S))) (op packet : Bytes) (s : S)
      → run_hooks (ps ++ qs) op packet s
        ≡ run_hooks qs op (run_hooks ps op packet s).1 (run_hooks ps op packet s).0
  unfolding run_hooks
  run_hooks-append [] qs op packet s = refl
  run_hooks-append (hook ∷ ps) qs op packet s =
      run_hooks-append ps qs op (hook_wrapper hook op packet s).1 (hook_wrapper hook op packet s).0

  -- `dispatch` shows every core handler the packet as it came, and then runs the packet through the
  -- hooks of "*" and those of the operation as one chain, each hook getting the packet that the one
  -- before it returned.
  dispatch-chains :
      (cores : List (Bytes → Bytes → S → S)) (m : HookMap (Handler S)) (op packet : Bytes) (s : S)
      → dispatch cores m op packet s
        ≡ (run_hooks
            (hooks_at m (codes "*") ++ hooks_at m op)
            op
            packet
            (run_core cores op packet s)).0
  unfolding dispatch
  dispatch-chains cores m op packet s = sym (
      ap (λ (r : S × Bytes). r.0)
        (run_hooks-append (hooks_at m (codes "*")) (hooks_at m op) op packet
          (run_core cores op packet s)))

  -- A hook that panics behind some others of the chain ends neither the dispatch nor the chain: the
  -- hooks behind it run from the state that it left, on the nil packet.
  pub dispatch_recovers :
      (cores : List (Bytes → Bytes → S → S)) (m : HookMap (Handler S)) (op packet : Bytes)
      (s s' : S) (before behind : List (PacketHook (Handler S))) (hook : PacketHook (Handler S))
      → hooks_at m (codes "*") ++ hooks_at m op ≡ before ++ hook ∷ behind
      → hook.handler op
          (run_hooks before op packet (run_core cores op packet s)).1
          (run_hooks before op packet (run_core cores op packet s)).0
        ≡ panicked s'
      → dispatch cores m op packet s ≡ (run_hooks behind op [] s').0
  unfolding run_hooks hook_wrapper
  dispatch_recovers cores m op packet s s' before behind hook e p =
      dispatch-chains cores m op packet s
      ∙ ap (λ hooks. (run_hooks hooks op packet (run_core cores op packet s)).0) e
      ∙ ap (λ (r : S × Bytes). r.0)
          (run_hooks-append before (hook ∷ behind) op packet (run_core cores op packet s))
      ∙ ap (λ h. (run_hooks behind op (recovered h).1 (recovered h).0).0) p
