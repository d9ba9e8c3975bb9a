-- ===== src/Packet/Tests.antt =====
-- The theorems at small maps of hooks.
use mathlib.Core.List.{◌∷◌, Perm}
use rhine.Prelude.{
  List, refl, none, negsuc, some, pos, ◌++◌, codes, bytes_eq, ℕ, Bytes, false, inr, ◌+◌, inl, true,
  arith, if◌then◌else◌, Bool-cases, ◌≡◌, [], ℤ,
}
use rhine.Packet.Hook.{remove_hook, unhook, insert_hook, hooks_at, HookMap, PacketHook}
use rhine.Packet.Dispatch.{run_core, hook_wrapper, returned, panicked, Handler, run_hooks, dispatch}
use rhine.Packet.Order.{insert_hook-IsOrdered, IsOrdered}
use rhine.Packet.Chain.{dispatch_recovers}
use rhine.Packet.Return.{unhook-insert_hook}
use rhine.Packet.Shared.{Unhooker, range_hooks, live}
use rhine.Packet.Range.{range_hooks-shifts}
use rhine.Packet.Removal.{remove_hook-erases, is_none, erase_id}
use rhine.Packet.Sorting.{sorter}

-- A dispatch whose modules keep the number of packets that they saw; two hooks see all packets, the
-- one with the lower priority panics, and one hook sees one operation.
abbrev counts : Handler ℕ
counts op packet n = returned (n + 1) (b'x' ∷ packet)

abbrev panics : Handler ℕ
panics op packet n = panicked (n + 1)

abbrev hook_of : ℕ → Bytes → ℤ → Handler ℕ → PacketHook (Handler ℕ)
hook_of id target priority handler = record {
  id = id;
  target = target;
  priority = priority;
  handler = handler;
  module_name = codes "test";
}

abbrev first_hook : PacketHook (Handler ℕ)
first_hook = hook_of 1 (codes "*") (pos 5) counts

abbrev panic_hook : PacketHook (Handler ℕ)
panic_hook = hook_of 2 (codes "*") (negsuc 0) panics

abbrev login_hook : PacketHook (Handler ℕ)
login_hook = hook_of 3 (codes "login") (pos 0) counts

abbrev new_hook : PacketHook (Handler ℕ)
new_hook = hook_of 4 (codes "*") (pos 0) counts

abbrev hooks : HookMap (Handler ℕ)
hooks target =
    if bytes_eq (codes "*") target
    then some (first_hook ∷ panic_hook ∷ [])
    else if bytes_eq (codes "login") target
    then some (login_hook ∷ [])
    else none

hooks-IsOrdered : IsOrdered hooks
hooks-IsOrdered target = elim (Bool-cases (bytes_eq (codes "*") target)) [
  | inl e ↦ rw e ((omega arith, tt), (tt, tt))
  | inr e ↦ rw e (elim (Bool-cases (bytes_eq (codes "login") target)) [
    | inl d ↦ rw d (tt, tt)
    | inr d ↦ rw d tt
  ])
]

insert_hook-IsOrdered_example :
    IsOrdered (insert_hook sorter true new_hook hooks)
    × ((target : Bytes)
        → Perm (hooks_at (insert_hook sorter true new_hook hooks) target) (
            if bytes_eq (codes "*") target
            then new_hook ∷ hooks_at hooks target
            else hooks_at hooks target))
insert_hook-IsOrdered_example = insert_hook-IsOrdered sorter new_hook hooks hooks-IsOrdered

remove_hook-erases_example :
    ((t : Bytes)
      → hooks_at (remove_hook panic_hook hooks).0 t
        ≡ (if bytes_eq (codes "*") t then erase_id 2 (hooks_at hooks t) else hooks_at hooks t))
    × ((remove_hook panic_hook hooks).1 ≡ is_none (hooks (codes "*")))
remove_hook-erases_example = remove_hook-erases panic_hook hooks

unhook-insert_hook_example :
    IsOrdered (unhook (some new_hook) (insert_hook sorter true new_hook hooks)).0
    × ((t : Bytes)
        → Perm
            (hooks_at (unhook (some new_hook) (insert_hook sorter true new_hook hooks)).0 t)
            (hooks_at hooks t))
    × ((unhook (some new_hook) (insert_hook sorter true new_hook hooks)).1 ≡ false)
unfolding bytes_eq
unhook-insert_hook_example =
    unhook-insert_hook sorter new_hook hooks (refl, (refl, tt)) hooks-IsOrdered

dispatch_recovers_example :
    dispatch [] hooks (codes "login") (codes "{}") 0
    ≡ (run_hooks (login_hook ∷ []) (codes "login") [] 2).0
unfolding run_hooks hook_wrapper run_core bytes_eq
dispatch_recovers_example =
    dispatch_recovers [] hooks (codes "login") (codes "{}") 0 2 (first_hook ∷ []) (login_hook ∷ [])
      panic_hook refl refl

-- A hook that unhooks itself, between two that keep what they see.
abbrev unhooker_of : ℕ → List ℕ → PacketHook (Unhooker (List ℕ))
unhooker_of id gone = record {
  id = id;
  target = codes "*";
  priority = pos 0;
  handler = λ op packet s. (returned (s ++ id ∷ []) packet, gone);
  module_name = codes "test";
}

range_hooks-shifts_example :
    ((range_hooks
        (codes "S/quest")
        (unhooker_of 1 [] ∷ unhooker_of 2 (2 ∷ []) ∷ unhooker_of 3 [] ∷ unhooker_of 4 [] ∷ [])
        []
        []).state
      ≡ 1 ∷ 2 ∷ 4 ∷ 4 ∷ [])
    × (live
          (range_hooks
            (codes "S/quest")
            (unhooker_of 1 [] ∷ unhooker_of 2 (2 ∷ []) ∷ unhooker_of 3 [] ∷ unhooker_of 4 [] ∷ [])
            []
            []).shared
        ≡ unhooker_of 1 [] ∷ unhooker_of 3 [] ∷ unhooker_of 4 [] ∷ [])
unfolding run_hooks
range_hooks-shifts_example =
    range_hooks-shifts (unhooker_of 2 (2 ∷ [])) (unhooker_of 1 [] ∷ [])
      (unhooker_of 3 [] ∷ unhooker_of 4 [] ∷ []) (codes "S/quest") [] [] (λ op packet s. refl)
      (refl, tt) (λ op packet s. refl, tt) (λ op packet s. refl, (λ op packet s. refl, tt))
