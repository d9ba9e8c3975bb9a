-- ===== src/State/Queue.antt =====
-- The order in which the hooks of a `GameState` are attached.
use rhine.State.Store.{
  delta_task, bad_sync, sync_task, bad_delta, Task, parse_data_delta, merge_failed, warn_if,
  attach_hook, handle_sync_data, run_task, take_hook, delta_of, merge_delta, Codec, hook,
  hook_queue_max, notify_failed, unlock, handle, attach_taken, after_walk, take_from, GameState,
  Attached, Ran, done, crashed,
}
use rhine.State.Calls.{unhook, is_same, Called, waits, panics, returns}
use rhine.State.Unhook.{without_erase}
use rhine.Slices.{has, erase_first, erase_first-has}
use rhine.State.Steps.{
  unhook_step, receive_step, start, attach_step, take_step, hook_step, task_step, packet_step, next,
  Reachable,
}
use rhine.Prelude.{
  true, map, ◌∙◌, codes, inr, refl, if◌then◌else◌, bytes_eq, inl, none, [], ◌∷◌, some, Bool-cases,
  ◌≡◌, ◌++◌, List, Bytes, Option, length, ltb,
}
use mathlib.Core.Path.{sym, ap, subst}
use rhine.Walk.Loop.{KeyPath, walk_and_notify, fault, stop, go, Round}
use rhine.Scanner.State.{Scanner}
use rhine.Walk.Notify.{World}
use mathlib.Core.List.{append_assoc, append-nil}

-- The hooks of a list that have a target.
abbrev pub only : Bytes → List Attached → List Attached
only t [] = []
only t (h ∷ hs) = if bytes_eq h.hook.target t then h ∷ only t hs else only t hs

only-append : (t : Bytes) (xs ys : List Attached) → only t (xs ++ ys) ≡ only t xs ++ only t ys
only-append t [] ys = refl
only-append t (h ∷ xs) ys = elim (Bool-cases (bytes_eq h.hook.target t)) [
  | inl e ↦ rw e (ap (λ r. h ∷ r) (only-append t xs ys))
  | inr e ↦ rw e (only-append t xs ys)
]

abbrev pub held : Option Attached → List Attached
held none = []
held (some h) = h ∷ []

module _ {U P E : Type 0} where
  -- The hooks of a target, the attached ones first, and then those that wait.
  abbrev pub pending : Bytes → GameState U P E → List Attached
  pending t g = g.state_hooks t ++ only t (held g.taken ++ g.queue)

  abbrev Keeps : Bytes → List Attached → Option (GameState U P E) → Type 0
  Keeps t hooks none = Unit
  Keeps t hooks (some g) = pending t g ≡ hooks

  abbrev Leaves : Bytes → List Attached → Ran U P E → Type 0
  Leaves t hooks crashed = Unit
  Leaves t hooks (done g) = pending t g ≡ hooks

  take_from-Keeps :
      (t : Bytes) (queue : List Attached) (taken : Option Attached) (g : GameState U P E)
      → Keeps t (g.state_hooks t ++ only t (held taken ++ queue)) (take_from queue taken g)
  unfolding take_from
  take_from-Keeps t [] taken g = tt
  take_from-Keeps t (h ∷ queue) none g = refl
  take_from-Keeps t (h ∷ queue) (some _) g = tt

  attach_taken-Keeps :
      (t : Bytes) (taken : Option Attached) (g : GameState U P E)
      → Keeps t (g.state_hooks t ++ only t (held taken ++ g.queue)) (attach_taken taken g)
  unfolding attach_taken
  attach_taken-Keeps t none g = tt
  attach_taken-Keeps t (some h) g = elim (Bool-cases g.locked) [
    | inl l ↦ rw l tt
    | inr l ↦ elim (Bool-cases (bytes_eq h.hook.target t)) [
      | inl e ↦ rw (l, e) (append_assoc (g.state_hooks t) (h ∷ []) (only t g.queue))
      | inr e ↦ rw (l, e) refl
    ]
  ]

  handle-Keeps :
      (t op packet : Bytes) (g : GameState U P E) → Keeps t (pending t g) (handle op packet g)
  unfolding handle
  handle-Keeps t op packet g = elim (Bool-cases g.loaded) [
    | inl d ↦ elim (Bool-cases g.locked) [ inl l ↦ rw (d, l) tt | inr l ↦ rw (d, l) refl ]
    | inr d ↦ elim (Bool-cases (bytes_eq op (codes "S/account/syncData"))) [
      | inl e ↦ rw (d, e) refl
      | inr e ↦ rw (d, e) refl
    ]
  ]

  unlock-Leaves : (t : Bytes) (g : GameState U P E) → Leaves t (pending t g) (unlock g)
  unlock-Leaves t g = elim (Bool-cases g.locked) [ inl l ↦ rw l refl | inr l ↦ rw l tt ]

  after_walk-Leaves :
      (t : Bytes) (g : GameState U P E) (r : Round P E) → Leaves t (pending t g) (after_walk g r)
  unfolding after_walk
  after_walk-Leaves t g (go w) = tt
  after_walk-Leaves t g (stop w none) = unlock-Leaves t (record g { world = w.world })
  after_walk-Leaves t g (stop w (some e)) =
      unlock-Leaves t (record g { world = w.world; log = g.log ++ notify_failed e ∷ [] })
  after_walk-Leaves t g fault = tt

  -- What `Unhook` of a hook takes of the hooks of a target: the first of its pointer, if one is
  -- attached.
  removed : Bytes → Attached → GameState U P E → List Attached → List Attached
  removed t h g hooks =
      if bytes_eq h.hook.target t
      then (if has (is_same h) (g.state_hooks t) then erase_first (is_same h) hooks else hooks)
      else hooks

  abbrev Removes : Bytes → List Attached → Called (GameState U P E) → Type 0
  Removes t hooks waits = Unit
  Removes t hooks panics = Unit
  Removes t hooks (returns g) = pending t g ≡ hooks

  unhook-Removes :
      (t : Bytes) (h : Attached) (g : GameState U P E)
      → Removes t (removed t h g (pending t g)) (unhook (some h) g)
  unfolding unhook removed
  unhook-Removes t h g =
      let waiting = only t (held g.taken ++ g.queue) in
      elim (Bool-cases g.locked) [
        | inl l ↦ rw l tt
        | inr l ↦ elim (Bool-cases (bytes_eq h.hook.target t)) [
          | inr e ↦ rw (l, e) refl
          | inl e ↦
              rw (l, e)
                (ap (λ hs. hs ++ waiting) (without_erase true h (g.state_hooks t))
                  ∙ erase_first-has (is_same h) (g.state_hooks t) waiting)
        ]
      ]

  added : Bytes → Attached → GameState U P E → List Attached
  added t h g = if ltb (length g.queue) hook_queue_max then only t (h ∷ []) else []

  hook-pending :
      (t : Bytes) (h : Attached) (g : GameState U P E)
      → pending t (hook h g) ≡ pending t g ++ added t h g
  unfolding hook added
  hook-pending t h g = elim (Bool-cases (ltb (length g.queue) hook_queue_max)) [
    | inl l ↦ rw l (
        ap (λ hs. g.state_hooks t ++ hs)
          (ap (only t) (sym (append_assoc (held g.taken) g.queue (h ∷ [])))
            ∙ only-append t (held g.taken ++ g.queue) (h ∷ []))
        ∙ sym (append_assoc (g.state_hooks t) (only t (held g.taken ++ g.queue)) (only t (h ∷ []))))
    | inr l ↦ rw l (sym (append-nil (pending t g)))
  ]

module _ {U P E : Type 0} (codec : Codec U P E) (pooled : Scanner) (path : KeyPath) where
  merge-Leaves :
      (t packet op raw : Bytes) (state : Option U) (g : GameState U P E)
      → Leaves t (pending t g) (merge_delta codec pooled path packet op raw state g)
  unfolding merge_delta
  merge-Leaves t packet op raw none g = tt
  merge-Leaves t packet op raw (some old) g =
      let merged = (codec.merge old (codec.unmarshal_user raw).0).0 in
      after_walk-Leaves t
        (record g {
          state = some merged;
          log =
              warn_if (codec.merge old (codec.unmarshal_user raw).0).1 (merge_failed op)
                (warn_if (codec.unmarshal_user raw).1 (bad_delta op packet) g.log);
        })
        (walk_and_notify (codec.lookup merged)
          (λ target. map (λ (h : Attached). h.hook) (g.state_hooks target)) raw pooled path g.world)

  delta-Leaves :
      (t packet op : Bytes) (raw : Option Bytes) (g : GameState U P E)
      → Leaves t (pending t g) (delta_of codec pooled path packet op raw g)
  unfolding delta_of
  delta-Leaves t packet op none g = unlock-Leaves t g
  delta-Leaves t packet op (some raw) g = merge-Leaves t packet op raw g.state g

  task-Leaves :
      (t : Bytes) (task : Task) (g : GameState U P E)
      → Leaves t (pending t g) (run_task codec pooled path task g)
  unfolding run_task handle_sync_data parse_data_delta
  task-Leaves t (sync_task packet) g = unlock-Leaves t (record g {
    state = some (codec.unmarshal_sync packet).0;
    log = warn_if (codec.unmarshal_sync packet).1 (bad_sync packet) g.log;
  })
  task-Leaves t (delta_task packet op) g = delta-Leaves t packet op (codec.modified packet) g

module _ {U P E : Type 0} (codec : Codec U P E) where
  -- The hooks for a target that `Hook` put into the queue on the way to a state, in that order, but
  -- for those that were attached when `Unhook` was called for them.
  unfoldable pub accepted :
      {world : World P} {g : GameState U P E} → Bytes → Reachable codec world g → List Attached
  unfolding added removed
  accepted t start = []
  accepted t (next r (packet_step op packet g e)) = accepted t r
  accepted t (next r (task_step pooled path before behind task g e e')) = accepted t r
  accepted t (next {g = g} r (hook_step h)) = accepted t r ++ added t h g
  accepted t (next r (take_step g e)) = accepted t r
  accepted t (next r (attach_step g e)) = accepted t r
  accepted t (next {g = g} r (unhook_step h g' e)) = removed t h g (accepted t r)
  accepted t (next r (receive_step rooms)) = accepted t r

  -- In every reachable state, the attached hooks of a target and then those that still wait are the
  -- hooks that `Hook` has put into the queue for the target, in the order of the calls; without the
  -- first one of its pointer for each return of an `Unhook` when that hook was attached, and with
  -- those still whose `Unhook` came before they were.
  pub pending-accepted :
      (world : World P) (g : GameState U P E) (t : Bytes) (r : Reachable codec world g)
      → pending t g ≡ accepted t r
  unfolding accepted take_hook attach_hook
  pending-accepted world g t start = refl
  pending-accepted world g t (next {g = g₀} r (packet_step op packet g' e)) =
      subst (Keeps t (pending t g₀)) e (handle-Keeps t op packet g₀) ∙ pending-accepted world g₀ t r
  pending-accepted world g t (next {g = g₀} r (task_step pooled path before behind task g' e e')) =
      subst (Leaves t (pending t g₀)) e'
        (task-Leaves codec pooled path t task (record g₀ { tasks = before ++ behind }))
      ∙ pending-accepted world g₀ t r
  pending-accepted world g t (next {g = g₀} r (hook_step h)) =
      hook-pending t h g₀ ∙ ap (λ hs. hs ++ added t h g₀) (pending-accepted world g₀ t r)
  pending-accepted world g t (next {g = g₀} r (take_step g' e)) =
      subst (Keeps t (pending t g₀)) e (take_from-Keeps t g₀.queue g₀.taken g₀)
      ∙ pending-accepted world g₀ t r
  pending-accepted world g t (next {g = g₀} r (attach_step g' e)) =
      subst (Keeps t (pending t g₀)) e (attach_taken-Keeps t g₀.taken g₀)
      ∙ pending-accepted world g₀ t r
  pending-accepted world g t (next {g = g₀} r (unhook_step h g' e)) =
      subst (Removes t (removed t h g₀ (pending t g₀))) e (unhook-Removes t h g₀)
      ∙ ap (removed t h g₀) (pending-accepted world g₀ t r)
  pending-accepted world g t (next {g = g₀} r (receive_step rooms)) = pending-accepted world g₀ t r
