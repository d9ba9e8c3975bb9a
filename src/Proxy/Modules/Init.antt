-- ===== src/Proxy/Modules/Init.antt =====
-- What `initMods` leaves: the hooks of all modules, in the order of their priorities.
use mathlib.Core.List.{◌∷◌, List, append_assoc, append-nil, Perm}
use rhine.State.Store.{GameState}
use rhine.Proxy.Modules.{
  new_module, on_shutdown_call, state_hook_call, hook_call, on_shutdown, state_hook, module_hook,
  ModuleCall, InitFunc, Dispatch, RhineModule, run_call, run_calls, init_mod, load_mods, init_mods,
}
use rhine.Prelude.{
  true, Bytes, Bool-cases, bytes_eq_iff, inl, inr, ap, refl, ◌∙◌, sym, bytes_eq, [], if◌then◌else◌,
  ◌++◌, false, ◌≡◌,
}
use rhine.Packet.Hook.{hooks_at, HookMap, PacketHook, insert_hook, Sorter, put_hooks, sort_hooks}
use rhine.Packet.Order.{hooks_at-put_self, hooks_at-put_ne, IsOrdered, sort_hooks-IsOrdered}
use mathlib.Core.Path.{subst}

module _ {H : Type 0} where
  -- The hooks for a target that the calls of a module register, in that order.
  abbrev pub hooks_of_call : Bytes → Bytes → ModuleCall H → List (PacketHook H)
  hooks_of_call t name (hook_call id target priority handler) =
      if bytes_eq target t
      then record {
        id = id;
        target = target;
        priority = priority;
        handler = handler;
        module_name = name;
      }
        ∷ []
      else []
  hooks_of_call t name (state_hook_call id target listener event) = []
  hooks_of_call t name (on_shutdown_call cb) = []

  abbrev pub hooks_of_calls : Bytes → Bytes → List (ModuleCall H) → List (PacketHook H)
  hooks_of_calls t name [] = []
  hooks_of_calls t name (call ∷ calls) = hooks_of_call t name call ++ hooks_of_calls t name calls

  abbrev pub hooks_of_mods : Bytes → List (InitFunc H) → List (PacketHook H)
  hooks_of_mods t [] = []
  hooks_of_mods t (f ∷ fs) = hooks_of_calls t f.name f.fun ++ hooks_of_mods t fs

module _ {H : Type 0} (sorter : Sorter H) where
  -- Before the modules are loaded, a hook goes to the end of its slice.
  hooks_at-insert :
      (h : PacketHook H) (m : HookMap H) (t : Bytes)
      → hooks_at (insert_hook sorter false h m) t
        ≡ hooks_at m t ++ (if bytes_eq h.target t then h ∷ [] else [])
  unfolding insert_hook
  hooks_at-insert h m t = elim (Bool-cases (bytes_eq h.target t)) [
    | inl e ↦ rw e (
        subst
          (λ t.
            hooks_at (put_hooks h.target (hooks_at m h.target ++ h ∷ []) m) t
            ≡ hooks_at m t ++ h ∷ [])
          ((bytes_eq_iff h.target t).0 e)
          (hooks_at-put_self h.target (hooks_at m h.target ++ h ∷ []) m))
    | inr e ↦ rw e (
        hooks_at-put_ne h.target t (hooks_at m h.target ++ h ∷ []) m e
        ∙ sym (append-nil (hooks_at m t)))
  ]

module _ {H U P E : Type 0} (sorter : Sorter H) where
  -- A call keeps the module's name and the flag of the dispatch, and adds its hook.
  run_call-hooks :
      (call : ModuleCall H) (m : RhineModule H) (d : Dispatch H U P E) (t : Bytes)
      → d.initialized ≡ false
      → ((run_call sorter call m d).0.name ≡ m.name)
        × ((run_call sorter call m d).1.initialized ≡ false)
        × (hooks_at (run_call sorter call m d).1.hooks t
            ≡ hooks_at d.hooks t ++ hooks_of_call t m.name call)
  unfolding run_call module_hook state_hook on_shutdown
  run_call-hooks (hook_call id target priority handler) m d t i = (
    refl,
    i,
    ap (λ b. hooks_at (insert_hook sorter b new d.hooks) t) i
        ∙ hooks_at-insert sorter new d.hooks t,
  )
    where
      new : PacketHook H
      new = record {
        id = id;
        target = target;
        priority = priority;
        handler = handler;
        module_name = m.name;
      }
  run_call-hooks (state_hook_call id target listener event) m d t i =
      (refl, i, sym (append-nil (hooks_at d.hooks t)))
  run_call-hooks (on_shutdown_call cb) m d t i = (refl, i, sym (append-nil (hooks_at d.hooks t)))

  run_calls-hooks :
      (calls : List (ModuleCall H)) (m : RhineModule H) (d : Dispatch H U P E) (t : Bytes)
      → d.initialized ≡ false
      → ((run_calls sorter calls m d).1.initialized ≡ false)
        × (hooks_at (run_calls sorter calls m d).1.hooks t
            ≡ hooks_at d.hooks t ++ hooks_of_calls t m.name calls)
  unfolding run_calls
  run_calls-hooks [] m d t i = (i, sym (append-nil (hooks_at d.hooks t)))
  run_calls-hooks (call ∷ calls) m d t i =
      let (name, i', h) = run_call-hooks call m d t i in
      let (i'', h') =
        run_calls-hooks calls (run_call sorter call m d).0 (run_call sorter call m d).1 t i' in
      (
        i'',
        h'
            ∙ ap (λ hs. hs ++ hooks_of_calls t (run_call sorter call m d).0.name calls) h
            ∙ append_assoc (hooks_at d.hooks t) (hooks_of_call t m.name call) _
            ∙ ap
                (λ n.
                  hooks_at d.hooks t ++ (hooks_of_call t m.name call ++ hooks_of_calls t n calls))
                name,
      )

  load_mods-hooks :
      (mods : List (InitFunc H)) (d : Dispatch H U P E) (t : Bytes)
      → d.initialized ≡ false
      → hooks_at (load_mods sorter mods d).hooks t ≡ hooks_at d.hooks t ++ hooks_of_mods t mods
  unfolding load_mods init_mod
  load_mods-hooks [] d t i = sym (append-nil (hooks_at d.hooks t))
  load_mods-hooks (f ∷ fs) d t i =
      let (i', h) = run_calls-hooks f.fun (new_module f d) d t i in
      load_mods-hooks fs (init_mod sorter f d) t i'
      ∙ ap (λ hs. hs ++ hooks_of_mods t fs) h
      ∙ append_assoc (hooks_at d.hooks t) (hooks_of_calls t f.name f.fun) (hooks_of_mods t fs)

  run_call-same :
      (call : ModuleCall H) (m : RhineModule H) (d : Dispatch H U P E)
      → ((run_call sorter call m d).1.uid ≡ d.uid)
        × ((run_call sorter call m d).1.region ≡ d.region)
  unfolding run_call module_hook state_hook on_shutdown
  run_call-same (hook_call id target priority handler) m d = (refl, refl)
  run_call-same (state_hook_call id target listener event) m d = (refl, refl)
  run_call-same (on_shutdown_call cb) m d = (refl, refl)

  run_calls-same :
      (calls : List (ModuleCall H)) (m : RhineModule H) (d : Dispatch H U P E)
      → ((run_calls sorter calls m d).1.uid ≡ d.uid)
        × ((run_calls sorter calls m d).1.region ≡ d.region)
  unfolding run_calls
  run_calls-same [] m d = (refl, refl)
  run_calls-same (call ∷ calls) m d =
      let (uid, region) = run_call-same call m d in
      let (uid', region') =
        run_calls-same calls (run_call sorter call m d).0 (run_call sorter call m d).1 in
      (uid' ∙ uid, region' ∙ region)

  load_mods-same :
      (mods : List (InitFunc H)) (d : Dispatch H U P E)
      → ((load_mods sorter mods d).uid ≡ d.uid) × ((load_mods sorter mods d).region ≡ d.region)
  unfolding load_mods init_mod
  load_mods-same [] d = (refl, refl)
  load_mods-same (f ∷ fs) d =
      let (uid, region) = run_calls-same f.fun (new_module f d) d in
      let (uid', region') = load_mods-same fs (init_mod sorter f d) in
      (uid' ∙ uid, region' ∙ region)

  pub init_mods-same :
      (mods : List (InitFunc H)) (gs : GameState U P E) (d : Dispatch H U P E)
      → ((init_mods sorter mods gs d).uid ≡ d.uid)
        × ((init_mods sorter mods gs d).region ≡ d.region)
  unfolding init_mods
  init_mods-same mods gs d = load_mods-same mods (record d { state = gs })

  -- After `initMods` of a new dispatch, the hooks for every target are those that the modules have
  -- registered for it, the ones with higher priorities first, and the dispatch is initialized.
  pub init_mods-IsOrdered :
      (mods : List (InitFunc H)) (gs : GameState U P E) (d : Dispatch H U P E)
      → d.initialized ≡ false
      → ((t : Bytes) → hooks_at d.hooks t ≡ [])
      → ((init_mods sorter mods gs d).initialized ≡ true)
        × IsOrdered (init_mods sorter mods gs d).hooks
        × ((t : Bytes)
            → Perm (hooks_at (init_mods sorter mods gs d).hooks t) (hooks_of_mods t mods))
  unfolding init_mods
  init_mods-IsOrdered mods gs d i none_yet =
      let start = record d { state = gs } in
      let (ordered, perm) = sort_hooks-IsOrdered sorter (load_mods sorter mods start).hooks in
      (
        refl,
        ordered,
        λ t.
            subst
              (λ hs. Perm (hooks_at (sort_hooks sorter (load_mods sorter mods start).hooks) t) hs)
              (load_mods-hooks mods start t i ∙ ap (λ hs. hs ++ hooks_of_mods t mods) (none_yet t))
              (perm t),
      )
