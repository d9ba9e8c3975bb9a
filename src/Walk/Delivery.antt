-- ===== src/Walk/Delivery.antt =====
-- Which events reach which channel.
use rhine.Prelude.{
  Bool-cases, inr, suc, ◌∙◌, inl, ◌⊎◌, ◌==◌, if◌then◌else◌, Option, sym, Bytes, ℕ, ◌-◌, List, [],
  ◌∷◌, ◌++◌, ◌≡◌, none, some, arith, length, refl, take,
}
use mathlib.Core.List.{append-nil, append_assoc}
use rhine.Walk.Notify.{
  found, StateHook, StateEvent, Channel, World, Looked, notified, notify_hooks, try_send,
}
use Prim.Native.Nat.{zero}

module _ {A : Type 0} where
  take-nil : (n : ℕ) → ◌≡◌ {A = List A} (take n []) []
  take-nil zero = refl
  take-nil (suc n) = refl

  take-cons : (n : ℕ) (x : A) (xs : List A) → take n (x ∷ []) ++ take (n - 1) xs ≡ take n (x ∷ xs)
  take-cons zero x xs = refl
  take-cons (suc n) x xs = let e : suc n - 1 ≡ n = omega arith in rw (e, take-nil n)

  take-one : (n : ℕ) (x : A) → take n (x ∷ []) ≡ (if n == 0 then [] else x ∷ [])
  take-one zero x = refl
  take-one (suc n) x = ground (arith, take-nil n)

module _ {P : Type 0} (path : Bytes) (p : P) where
  -- The event of a hook: with the payload, unless the hook asked for the event alone.
  abbrev event_of : StateHook → StateEvent P
  event_of hook = record { path = path; payload = if hook.event then none else some p }

  tell : List StateHook → World P → World P
  tell [] w = w
  tell (hook ∷ hooks) w = tell hooks (try_send hook (event_of hook) w)

  -- The events for one channel, in the order of the hooks.
  unfoldable pub events_for : ℕ → List StateHook → List (StateEvent P)
  events_for id [] = []
  events_for id (hook ∷ hooks) =
      if id == hook.listener then event_of hook ∷ events_for id hooks else events_for id hooks

  -- A channel that was sent these events, as far as it has room.
  abbrev pub receive : Channel P → List (StateEvent P) → Channel P
  receive ch evts = record { room = ch.room - length evts; sent = ch.sent ++ take ch.room evts }

  receive-nil : (ch : Channel P) → receive ch [] ≡ ch
  receive-nil ch = ground (arith, take-nil {A = StateEvent P} ch.room, append-nil ch.sent)

  receive-one :
      (ch : Channel P) (evt : StateEvent P)
      → receive ch (evt ∷ [])
        ≡ (if ch.room == 0 then ch else record { room = ch.room - 1; sent = ch.sent ++ evt ∷ [] })
  receive-one ch evt = ground (arith, take-one ch.room evt, append-nil ch.sent)

  try_send-channel :
      (id : ℕ) (hook : StateHook) (evt : StateEvent P) (w : World P)
      → (try_send hook evt w).channels id
        ≡ (if id == hook.listener then receive (w.channels id) (evt ∷ []) else w.channels id)
  unfolding try_send
  try_send-channel id hook evt w = elim (Bool-cases ((w.channels hook.listener).room == 0)) [
    | inl full ↦ rw full (ground (arith, receive-one (w.channels hook.listener) evt))
    | inr free ↦ rw free (ground (arith, receive-one (w.channels hook.listener) evt))
  ]

  receive-cons :
      (ch : Channel P) (evt : StateEvent P) (evts : List (StateEvent P))
      → receive (receive ch (evt ∷ [])) evts ≡ receive ch (evt ∷ evts)
  receive-cons ch evt evts = ground (
    arith,
    take-cons ch.room evt evts,
    append_assoc ch.sent (take ch.room (evt ∷ [])) (take (ch.room - 1) evts),
  )

  tell-channel :
      (id : ℕ) (hooks : List StateHook) (w : World P)
      → (tell hooks w).channels id ≡ receive (w.channels id) (events_for id hooks)
  unfolding tell events_for
  tell-channel id [] w = sym (receive-nil (w.channels id))
  tell-channel id (hook ∷ hooks) w =
      tell-channel id hooks (try_send hook (event_of hook) w)
      ∙ rw (try_send-channel id hook (event_of hook) w)
          (ground (arith, receive-cons (w.channels id) (event_of hook) (events_for id hooks)))

  notify_hooks-tell :
      {E : Type 0} (lookup : Bytes → Looked P E) (hooks : List StateHook) (payload : Option P)
      (w : World P)
      → lookup path ≡ found (some p)
      → (payload ≡ none) ⊎ (payload ≡ some p)
      → notify_hooks lookup path payload hooks w ≡ notified (tell hooks w)
  unfolding notify_hooks tell
  notify_hooks-tell lookup [] payload w e h = refl
  notify_hooks-tell lookup (hook ∷ hooks) payload w e h =
      let w' = try_send hook (event_of hook) w in
      ground (
        arith,
        notify_hooks-tell lookup hooks none w' e (inl refl),
        notify_hooks-tell lookup hooks (some p) w' e (inr refl),
      )

-- The inner loop of `WalkAndNotify` for a path whose value is there: no hook ends it. Each channel
-- gets the events of the hooks that listen on it, in their order, as many as it has room for; a
-- hook that asked for the event alone gets no payload, and every other one the value.
pub notify_hooks-delivers :
    {P E : Type 0} (lookup : Bytes → Looked P E) (path : Bytes) (p : P) (hooks : List StateHook)
    (w : World P)
    → lookup path ≡ found (some p)
    → (w' : World P) × (notify_hooks lookup path none hooks w ≡ notified w')
      × ((id : ℕ) → w'.channels id ≡ receive path p (w.channels id) (events_for path p id hooks))
notify_hooks-delivers lookup path p hooks w e = (
  tell path p hooks w,
  notify_hooks-tell path p lookup hooks none w e (inl refl),
  λ id. tell-channel path p id hooks w,
)
