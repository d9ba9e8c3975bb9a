-- ===== src/Packet/Shared.antt =====
-- The loop of `dispatch` over the hooks of one target, while its handlers unhook hooks of the same
-- target: `removeHook` shifts the array over which the loop ranges (proxy/dispatch.go).
use rhine.Packet.Hook.{PacketHook, index_of}
use rhine.Packet.Dispatch.{Handled, recovered}
use rhine.Prelude.{
  List, [], ◌∷◌, ◌++◌, ◌+◌, ◌-◌, ◌==◌, ℕ, zero, suc, take, drop, length, Bytes, if◌then◌else◌,
  Option, none, some,
}

-- A handler, and the pointers of the target's hooks that it has unhooked when it ends.
abbrev pub Unhooker : Type 0 → Type 0
Unhooker S = Bytes → Bytes → S → Handled S × List ℕ

-- The array, as long as the slice was when the loop began, and how much of it is the slice now.
pub record Shared (H : Type 0) : Type 0 where
  pub array : List (PacketHook H)
  pub len : ℕ

abbrev pub share : {H : Type 0} → List (PacketHook H) → Shared H
share hooks = record { array = hooks; len = length hooks }

module _ {H : Type 0} where
  -- The slice that the map has.
  abbrev pub live : Shared H → List (PacketHook H)
  live m = take m.len m.array

  -- `removeHook`: `append` moves the hooks behind the pointer down in the array, and leaves the
  -- entries behind the new slice as they are.
  unfoldable pub remove_shared : ℕ → Shared H → Shared H
  remove_shared id m =
      let i = index_of id (live m) in
      if i == length (live m) then m else record {
        array = take i m.array ++ drop (i + 1) (live m) ++ drop (m.len - 1) m.array;
        len = m.len - 1;
      }

  unfoldable pub remove_each : List ℕ → Shared H → Shared H
  unfolding remove_shared
  remove_each [] m = m
  remove_each (id ∷ ids) m = remove_each ids (remove_shared id m)

  abbrev pub first_of : List (PacketHook H) → Option (PacketHook H)
  first_of [] = none
  first_of (hook ∷ hooks) = some hook

-- Where a loop is: the state of the modules, the packet, and the array.
pub record Ranged (S : Type 0) : Type 0 where
  pub state : S
  pub packet : Bytes
  pub shared : Shared (Unhooker S)

module _ {S : Type 0} where
  -- `hookWrapper` around the handler.
  unfoldable pub call : Bytes → Option (PacketHook (Unhooker S)) → Ranged S → Ranged S
  unfolding remove_each
  call op none r = r
  call op (some hook) r =
      let (handled, gone) = hook.handler op r.packet r.state in
      let (s, out) = recovered handled in
      record { state = s; packet = out; shared = remove_each gone r.shared }

  -- `for _, hook := range hooks`: so many rounds from an index on, each of which reads the array.
  unfoldable pub range_from : ℕ → ℕ → Bytes → Ranged S → Ranged S
  unfolding call
  range_from zero i op r = r
  range_from (suc k) i op r = range_from k (i + 1) op (call op (first_of (drop i r.shared.array)) r)

  unfoldable pub range_hooks : Bytes → List (PacketHook (Unhooker S)) → Bytes → S → Ranged S
  unfolding range_from
  range_hooks op hooks packet s =
      range_from (length hooks) 0 op (record { state = s; packet = packet; shared = share hooks })
