-- ===== src/Packet/Order.antt =====
-- The slices of hooks stay in the order of their priorities, and lose and gain no other hook.
use rhine.Prelude.{
  [], ◌++◌, refl, some, if◌then◌else◌, inr, Bool, ◌∷◌, bytes_eq_iff, false, inl, ◌≡◌, Bool-cases,
  bytes_eq, List, true, Bytes,
}
use rhine.Packet.Hook.{
  slice_of, PacketHook, HookMap, hooks_at, IsDescending, Sorter, insert_hook, sort_hooks, put_hooks,
}
use mathlib.Core.Path.{sym, subst, ap}
use mathlib.Core.List.{perm_append_singleton, Perm}
use mathlib.Core.Option.{Option}
use Option.{none}
use mathlib.Core.List.Perm
use mathlib.Core.Option

-- Every slice of the map is in order.
abbrev pub IsOrdered : {H : Type 0} → HookMap H → Type 0
IsOrdered m = (target : Bytes) → IsDescending (hooks_at m target)

module _ {H : Type 0} where
  pub hooks_at-put_self :
      (t : Bytes) (hooks : List (PacketHook H)) (m : HookMap H)
      → hooks_at (put_hooks t hooks m) t ≡ hooks
  unfolding put_hooks
  hooks_at-put_self t hooks m =
      ap (λ (b : Bool). slice_of (if b then some hooks else m t)) ((bytes_eq_iff t t).1 refl)

  pub hooks_at-put_ne :
      (t j : Bytes) (hooks : List (PacketHook H)) (m : HookMap H)
      → bytes_eq t j ≡ false
      → hooks_at (put_hooks t hooks m) j ≡ hooks_at m j
  unfolding put_hooks
  hooks_at-put_ne t j hooks m e = ap (λ (b : Bool). slice_of (if b then some hooks else m j)) e

  put-IsOrdered :
      (t : Bytes) (hooks : List (PacketHook H)) (m : HookMap H)
      → IsOrdered m
      → IsDescending hooks
      → IsOrdered (put_hooks t hooks m)
  put-IsOrdered t hooks m o d j = elim (Bool-cases (bytes_eq t j)) [
    | inl e ↦
        rw (← (bytes_eq_iff t j).0 e) (subst IsDescending (sym (hooks_at-put_self t hooks m)) d)
    | inr e ↦ subst IsDescending (sym (hooks_at-put_ne t j hooks m e)) (o j)
  ]

module _ {H : Type 0} (sorter : Sorter H) where
  insert_hook-Perm :
      (hook : PacketHook H) (m : HookMap H)
      → Perm (hooks_at (insert_hook sorter true hook m) hook.target) (hook ∷ hooks_at m hook.target)
  unfolding insert_hook
  insert_hook-Perm hook m =
      let old = hooks_at m hook.target ++ hook ∷ [] in
      subst (λ hooks. Perm hooks (hook ∷ hooks_at m hook.target))
        (sym (hooks_at-put_self hook.target (sorter.sort old) m))
        (Perm.trans (sorter.sort-perm old) (perm_append_singleton hook (hooks_at m hook.target)))

  -- Once the dispatch is initialized, `insertHook` keeps every slice in the order of priorities,
  -- adds the one hook to the slice of its target, and loses and gains no other hook.
  pub insert_hook-IsOrdered :
      (hook : PacketHook H) (m : HookMap H)
      → IsOrdered m
      → IsOrdered (insert_hook sorter true hook m)
        × ((target : Bytes)
            → Perm (hooks_at (insert_hook sorter true hook m) target) (
                if bytes_eq hook.target target
                then hook ∷ hooks_at m target
                else hooks_at m target))
  unfolding insert_hook
  insert_hook-IsOrdered hook m o =
      let old = hooks_at m hook.target ++ hook ∷ [] in
      (
        put-IsOrdered hook.target (sorter.sort old) m o (sorter.sort-IsDescending old),
        λ target. elim (Bool-cases (bytes_eq hook.target target)) [
          | inl e ↦ rw e (
              subst (λ t. Perm (hooks_at (insert_hook sorter true hook m) t) (hook ∷ hooks_at m t))
                ((bytes_eq_iff hook.target target).0 e) (insert_hook-Perm hook m))
          | inr e ↦
              rw (e, hooks_at-put_ne hook.target target (sorter.sort old) m e)
                (Perm.refl (hooks_at m target))
        ],
      )

  sorted_slice :
      (hooks : Option (List (PacketHook H)))
      → IsDescending (slice_of (Option.map sorter.sort hooks))
  sorted_slice none = tt
  sorted_slice (some hooks) = sorter.sort-IsDescending hooks

  sorted_perm :
      (hooks : Option (List (PacketHook H)))
      → Perm (slice_of (Option.map sorter.sort hooks)) (slice_of hooks)
  sorted_perm none = Perm.nil
  sorted_perm (some hooks) = sorter.sort-perm hooks

  -- `sortHooks` puts every slice in order, whatever it was.
  pub sort_hooks-IsOrdered :
      (m : HookMap H)
      → IsOrdered (sort_hooks sorter m)
        × ((target : Bytes) → Perm (hooks_at (sort_hooks sorter m) target) (hooks_at m target))
  unfolding sort_hooks
  sort_hooks-IsOrdered m = (λ target. sorted_slice (m target), λ target. sorted_perm (m target))
