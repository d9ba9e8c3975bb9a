-- ===== src/Packet/Return.antt =====
-- `Hook` and then `Unhook` give the slices back, up to the order of equal priorities.
use mathlib.Core.Path.{sym, subst, ap}
use mathlib.Core.List.{
  ◌∷◌, List, Perm, Mem, not-mem-nil, eq-or-mem_of_mem-cons, mem-cons_self, mem-cons_of_mem,
}
use mathlib.Core.Bool.{Bool, true, false, Bool-set, true≢false}
use mathlib.Core.Logic.{inr, inl, ∥∥₁_elim, ∥∥₁_prop}
use rhine.Packet.Hook.{
  remove_hook, put_hooks, insert_hook, hooks_at, HookMap, unhook, Sorter, PacketHook,
}
use Prim.Native.Nat.{ℕ}
use rhine.Prelude.{
  eq_self, bytes_eq_iff, ◌++◌, refl, if◌then◌else◌, bytes_eq, Bytes, some, Bool-cases, ◌∙◌, [], ◌≡◌,
  ◌==◌,
}
use rhine.Packet.Removal.{is_none, remove_hook-IsOrdered, remove_hook-erases, erase_id}
use rhine.Packet.Order.{insert_hook-IsOrdered, IsOrdered}
use mathlib.Core.List.Perm
use mathlib.Core.Logic.Or

-- No hook of the slice is the one with the pointer.
abbrev pub Absent : {H : Type 0} → ℕ → List (PacketHook H) → Type 0
Absent id [] = Unit
Absent id (hook ∷ hooks) = ((hook.id == id) ≡ false) × Absent id hooks

module _ {H : Type 0} where
  Absent-mem :
      (id : ℕ) (hook : PacketHook H) (hooks : List (PacketHook H))
      → Absent id hooks
      → Mem hook hooks
      → (hook.id == id) ≡ false
  Absent-mem id hook [] a m = absurd (not-mem-nil m)
  Absent-mem id hook (h ∷ hooks) (n, a) m =
      Or.elim (Bool-set (hook.id == id) false) (eq-or-mem_of_mem-cons m)
        (λ e. ap (λ (x : PacketHook H). x.id == id) e ∙ n) (λ m'. Absent-mem id hook hooks a m')

  -- A slice with the hook, in which only it has its pointer.
  erase_id-Perm :
      (hook : PacketHook H) (xs : List (PacketHook H))
      → ((h : PacketHook H) → Mem h xs → (h.id == hook.id) ≡ true → ∥ h ≡ hook ∥₁)
      → Mem hook xs
      → Perm xs (hook ∷ erase_id hook.id xs)
  erase_id-Perm hook [] u m = absurd (not-mem-nil m)
  erase_id-Perm hook (x ∷ xs) u m = elim (Bool-cases (x.id == hook.id)) [
    | inl e ↦ rw e (∥∥₁_elim (u x mem-cons_self e) ∥∥₁_prop (λ p. Perm.cons' p (Perm.refl xs)))
    | inr e ↦ rw e (
        Or.elim ∥∥₁_prop (eq-or-mem_of_mem-cons m)
          (λ p.
            absurd (
              true≢false
                (sym (eq_self hook.id) ∙ ap (λ (h : PacketHook H). h.id == hook.id) p ∙ e)))
          (λ m'.
            Perm.trans (Perm.cons x (erase_id-Perm hook xs (λ h k. u h (mem-cons_of_mem x k)) m'))
              (Perm.swap hook x (erase_id hook.id xs))))
  ]

  -- A slice that has the hook added, the order apart, has its old hooks once it is taken out.
  erase_id_added :
      (hook : PacketHook H) (xs ys : List (PacketHook H))
      → Absent hook.id ys
      → Perm xs (hook ∷ ys)
      → Perm (erase_id hook.id xs) ys
  erase_id_added hook xs ys a p = Perm.cons_inv (
      Perm.trans
        (Perm.symm (erase_id-Perm hook xs (λ h m e. only h m e) ((Perm.mem_iff p).1 mem-cons_self)))
        p)
    where
      only : (h : PacketHook H) → Mem h xs → (h.id == hook.id) ≡ true → ∥ h ≡ hook ∥₁
      only h m e =
          Or.elim ∥∥₁_prop (eq-or-mem_of_mem-cons ((Perm.mem_iff p).0 m)) (λ q. ∣ q ∣₁)
            (λ m'. absurd (true≢false (sym e ∙ Absent-mem hook.id h ys a m')))

  -- The two changes of a slice, of the hook's target (`b` is true) or of another.
  added_erased :
      (b : Bool) (hook : PacketHook H) (zs xs ys : List (PacketHook H))
      → zs ≡ (if b then erase_id hook.id xs else xs)
      → Perm xs (if b then hook ∷ ys else ys)
      → (b ≡ true → Absent hook.id ys)
      → Perm zs ys
  added_erased true hook zs xs ys e p a =
      subst (λ l. Perm l ys) (sym e) (erase_id_added hook xs ys (a refl) p)
  added_erased false hook zs xs ys e p a = subst (λ l. Perm l ys) (sym e) p

module _ {H : Type 0} (sorter : Sorter H) where
  insert_hook-is_none :
      (hook : PacketHook H) (m : HookMap H)
      → is_none (insert_hook sorter true hook m hook.target) ≡ false
  unfolding insert_hook put_hooks
  insert_hook-is_none hook m =
      ap
        (λ (b : Bool).
          is_none
            (if b then some (sorter.sort (hooks_at m hook.target ++ hook ∷ [])) else m hook.target))
        ((bytes_eq_iff hook.target hook.target).1 refl)

  -- On an initialized dispatch whose slices are in order, `insertHook` of a new hook and then its
  -- `Unhook` leave every slice in order and with the hooks that it had before; nothing is warned.
  pub unhook-insert_hook :
      (hook : PacketHook H) (m : HookMap H)
      → Absent hook.id (hooks_at m hook.target)
      → IsOrdered m
      → IsOrdered (unhook (some hook) (insert_hook sorter true hook m)).0
        × ((t : Bytes)
            → Perm
                (hooks_at (unhook (some hook) (insert_hook sorter true hook m)).0 t)
                (hooks_at m t))
        × ((unhook (some hook) (insert_hook sorter true hook m)).1 ≡ false)
  unfolding unhook
  unhook-insert_hook hook m a o =
      let (ordered, perms) = insert_hook-IsOrdered sorter hook m o in
      let (removed, warned) = remove_hook-erases hook (insert_hook sorter true hook m) in
      (
        remove_hook-IsOrdered hook (insert_hook sorter true hook m) ordered,
        λ t.
            added_erased (bytes_eq hook.target t) hook
              (hooks_at (remove_hook hook (insert_hook sorter true hook m)).0 t)
              (hooks_at (insert_hook sorter true hook m) t) (hooks_at m t) (removed t) (perms t)
              (λ e.
                subst (λ j. Absent hook.id (hooks_at m j)) ((bytes_eq_iff hook.target t).0 e) a),
        warned ∙ insert_hook-is_none hook m,
      )
