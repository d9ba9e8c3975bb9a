-- ===== src/Packet/Hook.antt =====
-- The hooks of one user (proxy/packetHook.go, and the hook methods of proxy/dispatch.go).
use rhine.Prelude.{
  drop, take, true, length, ◌+◌, none, ◌==◌, ◌≤ℤ◌, bytes_eq, some, [], ◌∷◌, if◌then◌else◌, false,
  ◌++◌, ℤ, ℕ, List, Bool, Option, Bytes,
}
use mathlib.Core.List.{Perm}
use mathlib.Core.Option

-- `*PacketHook`: `id` is the pointer, by which hooks are compared. `H` is the type of handlers.
pub record PacketHook (H : Type 0) : Type 0 where
  pub id : ℕ
  pub target : Bytes
  pub priority : ℤ
  pub handler : H
  pub module_name : Bytes

-- A Go map of slices; a key that is not there is `none`.
abbrev pub HookMap : Type 0 → Type 0
HookMap H = Bytes → Option (List (PacketHook H))

-- The hooks under a target, with the nil slice where there are none.
abbrev pub slice_of : {H : Type 0} → Option (List (PacketHook H)) → List (PacketHook H)
slice_of none = []
slice_of (some hooks) = hooks

abbrev pub hooks_at : {H : Type 0} → HookMap H → Bytes → List (PacketHook H)
hooks_at m target = slice_of (m target)

unfoldable pub put_hooks : {H : Type 0} → Bytes → List (PacketHook H) → HookMap H → HookMap H
put_hooks target hooks m t = if bytes_eq target t then some hooks else m t

-- The order of `byPriority`: no hook behind another has a higher priority.
abbrev pub Below : {H : Type 0} → ℤ → List (PacketHook H) → Type 0
Below p [] = Unit
Below p (hook ∷ hooks) = (hook.priority ≤ℤ p) × Below p hooks

abbrev pub IsDescending : {H : Type 0} → List (PacketHook H) → Type 0
IsDescending [] = Unit
IsDescending (hook ∷ hooks) = Below hook.priority hooks × IsDescending hooks

-- `sort.Sort` with `byPriority`: it permutes the slice and leaves it in order. It need not be
-- stable.
pub record Sorter (H : Type 0) : Type 0 where
  pub sort : List (PacketHook H) → List (PacketHook H)
  pub sort-perm : (hooks : List (PacketHook H)) → Perm (sort hooks) hooks
  pub sort-IsDescending : (hooks : List (PacketHook H)) → IsDescending (sort hooks)

module _ {H : Type 0} (sorter : Sorter H) where
  -- `insertHook` on the map; `initialized` is the dispatch's field `intialized`.
  unfoldable pub insert_hook : Bool → PacketHook H → HookMap H → HookMap H
  insert_hook initialized hook m =
      let hook_slice = hooks_at m hook.target ++ hook ∷ [] in
      put_hooks hook.target (if initialized then sorter.sort hook_slice else hook_slice) m

  -- `sortHooks`: every slice of the map is sorted in place.
  unfoldable pub sort_hooks : HookMap H → HookMap H
  sort_hooks m target = Option.map sorter.sort (m target)

module _ {H : Type 0} where
  -- The counter of the loop of `removeHook`: how many hooks stand before the pointer.
  unfoldable pub index_of : ℕ → List (PacketHook H) → ℕ
  index_of id [] = 0
  index_of id (hook ∷ hooks) = if hook.id == id then 0 else index_of id hooks + 1

  -- The slice behind the loop: unchanged, or without the hook.
  unfoldable pub remove_at : ℕ → List (PacketHook H) → List (PacketHook H)
  unfolding index_of
  remove_at id hooks =
      let i = index_of id hooks in
      if i == length hooks then hooks else take i hooks ++ drop (i + 1) hooks

  -- `removeHook` behind the lookup: the map, and whether a warning is written.
  unfoldable pub remove_from :
      PacketHook H → HookMap H → Option (List (PacketHook H)) → HookMap H × Bool
  unfolding index_of put_hooks
  remove_from old m none = (m, true)
  remove_from old m (some hooks) = (
    if index_of old.id hooks == length hooks
        then m
        else put_hooks old.target (remove_at old.id hooks) m,
    false,
  )

  unfoldable pub remove_hook : PacketHook H → HookMap H → HookMap H × Bool
  unfolding remove_from
  remove_hook old m = remove_from old m (m old.target)

  -- `Unhook` on a nil hook does nothing.
  unfoldable pub unhook : Option (PacketHook H) → HookMap H → HookMap H × Bool
  unfolding remove_hook
  unhook none m = (m, false)
  unhook (some hook) m = remove_hook hook m
