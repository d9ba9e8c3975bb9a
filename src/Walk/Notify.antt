-- ===== src/Walk/Notify.antt =====
-- The inner loop of `WalkAndNotify`: the hooks that are registered for one path.
use rhine.Prelude.{
  ◌-◌, [], ◌∷◌, some, ◌++◌, Bool, ◌==◌, none, List, ℕ, Option, if◌then◌else◌, Bytes,
}

-- `GameStateHook`; the listener is the channel's name.
pub record StateHook : Type 0 where
  pub target : Bytes
  pub module_name : Bytes
  pub listener : ℕ
  pub event : Bool

-- `StateEvent`; the payload `nil` is `none`.
pub record StateEvent (P : Type 0) : Type 0 where
  pub path : Bytes
  pub payload : Option P

-- A channel: how many values it takes before a sender has to wait (free places of the buffer and
-- receivers that wait), and what was sent.
pub record Channel (P : Type 0) : Type 0 where
  pub room : ℕ
  pub sent : List (StateEvent P)

-- The channels, and the hooks whose events were dropped with a warning.
pub record World (P : Type 0) : Type 0 where
  pub channels : ℕ → Channel P
  pub dropped : List StateHook

-- `lookup.LookupString` on the state, and `Interface` on its result.
pub data Looked (P E : Type 0) : Type 0 where
  found : Option P → Looked P E
  not_found : E → Looked P E

pub data Notified (P E : Type 0) : Type 0 where
  notified : World P → Notified P E
  lookup_error : World P → E → Notified P E

module _ {P : Type 0} where
  put_channel : ℕ → Channel P → (ℕ → Channel P) → ℕ → Channel P
  put_channel id ch chs j = if j == id then ch else chs j

  -- `select` with the send and `default`.
  unfoldable pub try_send : StateHook → StateEvent P → World P → World P
  unfolding put_channel
  try_send hook evt w =
      let ch = w.channels hook.listener in
      if ch.room == 0 then record w { dropped = w.dropped ++ hook ∷ [] } else record w {
        channels =
            put_channel hook.listener (record { room = ch.room - 1; sent = ch.sent ++ evt ∷ [] })
              w.channels;
      }

module _ {P E : Type 0} (lookup : Bytes → Looked P E) where
  -- The payload of one hook's event, by the payload that was looked up before.
  payload_for : StateHook → Bytes → Option P → Looked P E
  payload_for hook path payload =
      if hook.event
      then found none
      else elim payload [ some p ↦ found (some p) | none ↦ lookup path ]

  unfoldable pub notify_hooks : Bytes → Option P → List StateHook → World P → Notified P E
  unfolding payload_for
  notify_hooks path payload [] w = notified w
  notify_hooks path payload (hook ∷ hooks) w = elim (payload_for hook path payload) [
    | not_found e ↦ lookup_error w e
    | found v ↦
        notify_hooks path (if hook.event then payload else v) hooks
          (try_send hook (record { path = path; payload = v }) w)
  ]
