-- ===== src/State/Mirror.antt =====
-- The state as a replay: what `GetStateRef` gives is the user that the packets make, one by one.
use rhine.State.Store.{
  hook_queue_max, delta_task, sync_task, Task, parse_data_delta, warn_if, merge_failed, bad_sync,
  bad_delta, handle_sync_data, run_task, take_hook, delta_of, merge_delta, Codec, hook,
  notify_failed, unlock, handle, attach_hook, attach_taken, after_walk, take_from, GameState,
  Attached, Ran, done, crashed, get_state_ref,
}
use rhine.State.Calls.{unhook, Called, waits, panics, returns}
use rhine.State.Steps.{
  unhook_step, receive_step, start, attach_step, take_step, hook_step, task_step, packet_step, next,
  Reachable,
}
use rhine.Prelude.{
  ◌∙◌, sym, ap, map, codes, true, refl, length, ◌++◌, false, inr, bytes_eq, [], none, ◌≡◌, Bool,
  ltb, inl, ◌∷◌, if◌then◌else◌, some, Bytes, List, Bool-cases, Option,
}
use rhine.Walk.Loop.{KeyPath, fault, stop, walk_and_notify, go, Round}
use rhine.Scanner.State.{Scanner}
use rhine.Walk.Notify.{World}
use rhine.State.Phase.{idle, Settled, busy, waiting, Phase}
use mathlib.Core.Path.{subst}
use rhine.State.Invariant.{only_task, Reachable_task-Settled, not_nil, Reachable-Phase}
use mathlib.Core.Bool.{true≢false}

-- What one packet makes of the user that came of those before it: the first sync gives one, other
-- packets before it do nothing, and a delta is merged into it, where the packet has one.
module _ {U P E : Type 0} (codec : Codec U P E) where
  abbrev merged : Option Bytes → U → U
  merged none user = user
  merged (some raw) user = (codec.merge user (codec.unmarshal_user raw).0).0

  unfoldable pub hears : Option U → Bytes → Bytes → Option U
  hears none op packet =
      if bytes_eq op (codes "S/account/syncData")
      then some (codec.unmarshal_sync packet).0
      else none
  hears (some user) op packet = some (merged (codec.modified packet) user)

  -- The state behind the goroutines that still run.
  abbrev work : Task → Option U → Option U
  work (sync_task packet) state = some (codec.unmarshal_sync packet).0
  work (delta_task packet op) none = none
  work (delta_task packet op) (some user) = some (merged (codec.modified packet) user)

  abbrev due : List Task → Option U → Option U
  due [] state = state
  due (task ∷ tasks) state = due tasks (work task state)

  abbrev Held : Option U → Bool → List Task → Option U → Type 0
  Held none loaded tasks state = (loaded ≡ false) × ((tasks ≡ []) × (state ≡ none))
  Held (some user) loaded tasks state = (loaded ≡ true) × (due tasks state ≡ some user)

  abbrev Mirrors : Option U → GameState U P E → Type 0
  Mirrors user g = Held user g.loaded g.tasks g.state

  abbrev MirrorsAny : Option U → Option (GameState U P E) → Type 0
  MirrorsAny user none = Unit
  MirrorsAny user (some g) = Mirrors user g

  handle-Mirrors :
      (op packet : Bytes) (user : Option U) (g : GameState U P E)
      → Phase g
      → Mirrors user g
      → MirrorsAny (hears user op packet) (handle op packet g)
  unfolding handle hears
  handle-Mirrors op packet none g p (d, (t, s)) =
      elim (Bool-cases (bytes_eq op (codes "S/account/syncData"))) [
        | inl e ↦ rw (d, e) (refl, ap (λ ts. due (ts ++ sync_task packet ∷ []) g.state) t)
        | inr e ↦ rw (d, e) (refl, (t, s))
      ]
  handle-Mirrors op packet (some user) g (waiting d' l t) (d, m) = absurd (true≢false (sym d ∙ d'))
  handle-Mirrors op packet (some user) g (busy task d' l t r) (d, m) = rw (d, l) tt
  handle-Mirrors op packet (some user) g (idle user' d' l t s) (d, m) =
      rw (d, l)
        (
          refl,
          ap (λ ts. due (ts ++ delta_task packet op ∷ []) g.state) t
              ∙ ap (work (delta_task packet op)) (sym (ap (λ ts. due ts g.state) t) ∙ m),
        )

  hook-Mirrors :
      (h : Attached) (user : Option U) (g : GameState U P E)
      → Mirrors user g
      → Mirrors user (hook h g)
  unfolding hook
  hook-Mirrors h user g m = elim (Bool-cases (ltb (length g.queue) hook_queue_max)) [
    | inl e ↦ rw e m
    | inr e ↦ rw e m
  ]

  take_from-Mirrors :
      (queue : List Attached) (taken : Option Attached) (user : Option U) (g : GameState U P E)
      → Mirrors user g
      → MirrorsAny user (take_from queue taken g)
  unfolding take_from
  take_from-Mirrors [] taken user g m = tt
  take_from-Mirrors (h ∷ queue) none user g m = m
  take_from-Mirrors (h ∷ queue) (some _) user g m = tt

  attach_taken-Mirrors :
      (taken : Option Attached) (user : Option U) (g : GameState U P E)
      → Mirrors user g
      → MirrorsAny user (attach_taken taken g)
  unfolding attach_taken
  attach_taken-Mirrors none user g m = tt
  attach_taken-Mirrors (some h) user g m = elim (Bool-cases g.locked) [
    | inl e ↦ rw e tt
    | inr e ↦ rw e m
  ]

  abbrev MirrorsCalled : Option U → Called (GameState U P E) → Type 0
  MirrorsCalled user waits = Unit
  MirrorsCalled user panics = Unit
  MirrorsCalled user (returns g) = Mirrors user g

  unhook-Mirrors :
      (h : Attached) (user : Option U) (g : GameState U P E)
      → Mirrors user g
      → MirrorsCalled user (unhook (some h) g)
  unfolding unhook
  unhook-Mirrors h user g m = elim (Bool-cases g.locked) [ inl e ↦ rw e tt | inr e ↦ rw e m ]

  -- The state that a goroutine leaves.
  abbrev Turns : Option U → Ran U P E → Type 0
  Turns state crashed = Unit
  Turns state (done g) = g.state ≡ state

  unlock-Turns : (g : GameState U P E) → Turns g.state (unlock g)
  unlock-Turns g = elim (Bool-cases g.locked) [ inl l ↦ rw l refl | inr l ↦ rw l tt ]

  after_walk-Turns : (g : GameState U P E) (r : Round P E) → Turns g.state (after_walk g r)
  unfolding after_walk
  after_walk-Turns g (go w) = tt
  after_walk-Turns g (stop w none) = unlock-Turns (record g { world = w.world })
  after_walk-Turns g (stop w (some e)) =
      unlock-Turns (record g { world = w.world; log = g.log ++ notify_failed e ∷ [] })
  after_walk-Turns g fault = tt

  module _ (pooled : Scanner) (path : KeyPath) where
    merge-Turns :
        (packet op raw : Bytes) (state : Option U) (g : GameState U P E)
        → codec.modified packet ≡ some raw
        → Turns
            (work (delta_task packet op) state)
            (merge_delta codec pooled path packet op raw state g)
    unfolding merge_delta
    merge-Turns packet op raw none g e = tt
    merge-Turns packet op raw (some old) g e =
        let user = (codec.merge old (codec.unmarshal_user raw).0).0 in
        rw e (
          after_walk-Turns
            (record g {
              state = some user;
              log =
                  warn_if (codec.merge old (codec.unmarshal_user raw).0).1 (merge_failed op)
                    (warn_if (codec.unmarshal_user raw).1 (bad_delta op packet) g.log);
            })
            (walk_and_notify (codec.lookup user)
              (λ target. map (λ (h : Attached). h.hook) (g.state_hooks target)) raw pooled path
              g.world))

    unchanged :
        (packet op : Bytes) (state : Option U)
        → codec.modified packet ≡ none
        → work (delta_task packet op) state ≡ state
    unchanged packet op none e = refl
    unchanged packet op (some user) e = rw e refl

    delta-Turns :
        (packet op : Bytes) (raw : Option Bytes) (g : GameState U P E)
        → codec.modified packet ≡ raw
        → Turns (work (delta_task packet op) g.state) (delta_of codec pooled path packet op raw g)
    unfolding delta_of
    delta-Turns packet op none g e = rw (unchanged packet op g.state e) (unlock-Turns g)
    delta-Turns packet op (some raw) g e = merge-Turns packet op raw g.state g e

    task-Turns :
        (task : Task) (g : GameState U P E)
        → Turns (work task g.state) (run_task codec pooled path task g)
    unfolding run_task handle_sync_data parse_data_delta
    task-Turns (sync_task packet) g = unlock-Turns (record g {
      state = some (codec.unmarshal_sync packet).0;
      log = warn_if (codec.unmarshal_sync packet).1 (bad_sync packet) g.log;
    })
    task-Turns (delta_task packet op) g = delta-Turns packet op (codec.modified packet) g refl

    done-Mirrors :
        (before behind : List Task) (task : Task) (user : Option U) (g g' : GameState U P E)
        → Phase g
        → Mirrors user g
        → g.tasks ≡ before ++ task ∷ behind
        → g'.state ≡ work task g.state
        → Settled (done g')
        → Mirrors user g'
    done-Mirrors before behind task none g g' p (d, (t, s)) e w settled =
        absurd (not_nil before behind task (sym e ∙ t))
    done-Mirrors before behind task (some user) g g' (waiting d l t) m e w settled =
        absurd (not_nil before behind task (sym e ∙ t))
    done-Mirrors before behind task (some user) g g' (idle _ d l t s) m e w settled =
        absurd (not_nil before behind task (sym e ∙ t))
    done-Mirrors before behind task (some user) g g' (busy task' _ l t r) (d, m) e w
          (_, (_, (d', (t', _)))) =
        (
          d',
          ap (λ ts. due ts g'.state) t'
              ∙ w
              ∙ ap (λ x. work x g.state) (only_task before behind task task' (sym e ∙ t)).0
              ∙ sym (ap (λ ts. due ts g.state) t)
              ∙ m,
        )

  -- The packets that `handle` took on the way to a state, replayed.
  unfoldable pub mirror_of :
      {world : World P} {g : GameState U P E} → Reachable codec world g → Option U
  unfolding hears
  mirror_of start = none
  mirror_of (next r (packet_step op packet g e)) = hears (mirror_of r) op packet
  mirror_of (next r (task_step pooled path before behind task g e e')) = mirror_of r
  mirror_of (next r (hook_step h)) = mirror_of r
  mirror_of (next r (take_step g e)) = mirror_of r
  mirror_of (next r (attach_step g e)) = mirror_of r
  mirror_of (next r (unhook_step h g e)) = mirror_of r
  mirror_of (next r (receive_step rooms)) = mirror_of r

  mirror_of-Mirrors :
      (world : World P) (g : GameState U P E) (r : Reachable codec world g)
      → Mirrors (mirror_of r) g
  unfolding mirror_of take_hook attach_hook
  mirror_of-Mirrors world g start = (refl, (refl, refl))
  mirror_of-Mirrors world g (next {g = g₀} r (packet_step op packet g' e)) =
      subst (MirrorsAny (hears (mirror_of r) op packet)) e (
        handle-Mirrors op packet (mirror_of r) g₀ (Reachable-Phase codec world g₀ r)
          (mirror_of-Mirrors world g₀ r))
  mirror_of-Mirrors world g (next {g = g₀} r (task_step pooled path before behind task g' e e')) =
      done-Mirrors pooled path before behind task (mirror_of r) g₀ g
        (Reachable-Phase codec world g₀ r) (mirror_of-Mirrors world g₀ r) e
        (subst (Turns (work task g₀.state)) e'
          (task-Turns pooled path task (record g₀ { tasks = before ++ behind })))
        (subst Settled e'
          (Reachable_task-Settled codec pooled path world g₀ before behind task r e))
  mirror_of-Mirrors world g (next {g = g₀} r (hook_step h)) =
      hook-Mirrors h (mirror_of r) g₀ (mirror_of-Mirrors world g₀ r)
  mirror_of-Mirrors world g (next {g = g₀} r (take_step g' e)) =
      subst (MirrorsAny (mirror_of r)) e
        (take_from-Mirrors g₀.queue g₀.taken (mirror_of r) g₀ (mirror_of-Mirrors world g₀ r))
  mirror_of-Mirrors world g (next {g = g₀} r (attach_step g' e)) =
      subst (MirrorsAny (mirror_of r)) e
        (attach_taken-Mirrors g₀.taken (mirror_of r) g₀ (mirror_of-Mirrors world g₀ r))
  mirror_of-Mirrors world g (next {g = g₀} r (unhook_step h g' e)) =
      subst (MirrorsCalled (mirror_of r)) e
        (unhook-Mirrors h (mirror_of r) g₀ (mirror_of-Mirrors world g₀ r))
  mirror_of-Mirrors world g (next {g = g₀} r (receive_step rooms)) = mirror_of-Mirrors world g₀ r

  abbrev Finds : Option U → Option (Option U) → Type 0
  Finds user none = Unit
  Finds user (some found) = found ≡ user

  get_state_ref-Finds :
      (user : Option U) (g : GameState U P E)
      → Phase g
      → Mirrors user g
      → Finds user (get_state_ref g)
  unfolding get_state_ref
  get_state_ref-Finds user g (waiting d l t) m = rw l tt
  get_state_ref-Finds user g (busy task d l t r) m = rw l tt
  get_state_ref-Finds none g (idle _ d l t s) (d', m) = absurd (true≢false (sym d ∙ d'))
  get_state_ref-Finds (some user) g (idle _ d l t s) (d', m) =
      rw l (sym (ap (λ ts. due ts g.state) t) ∙ m)

  -- In every reachable state, what `GetStateRef` returns, when it does, is the replay of the
  -- packets so far: nil becomes a user with the first sync packet, and every later packet merges
  -- its delta, in the order in which they came, whatever the goroutines and the hooks did meanwhile.
  pub get_state_ref-mirror_of :
      (world : World P) (g : GameState U P E) (found : Option U) (r : Reachable codec world g)
      → get_state_ref g ≡ some found
      → found ≡ mirror_of r
  get_state_ref-mirror_of world g found r e = subst (Finds (mirror_of r)) e (
      get_state_ref-Finds (mirror_of r) g (Reachable-Phase codec world g r)
        (mirror_of-Mirrors world g r))
