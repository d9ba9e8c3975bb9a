-- ===== src/Packet/Removal.antt =====
-- Removing a hook, against a recursive definition that takes the first hook with the pointer out.
use mathlib.Core.Path.{sym, ap, subst}
use rhine.Packet.Hook.{
  slice_of, hooks_at, HookMap, remove_at, remove_from, remove_hook, Below, IsDescending, PacketHook,
  index_of,
}
use rhine.Prelude.{
  bytes_eq_iff, false, none, some, bytes_eq, true, Bytes, Bool, Option, drop, take, length, ◌∷◌,
  List, ◌++◌, ◌∙◌, arith, ◌+◌, refl, inr, inl, [], ◌==◌, if◌then◌else◌, Bool-cases, ◌≡◌, ℤ,
}
use Prim.Native.Nat.{ℕ}
use rhine.Packet.Order.{IsOrdered, hooks_at-put_self, hooks_at-put_ne}

abbrev pub erase_id : {H : Type 0} → ℕ → List (PacketHook H) → List (PacketHook H)
erase_id id [] = []
erase_id id (hook ∷ hooks) = if hook.id == id then hooks else hook ∷ erase_id id hooks

module _ {H : Type 0} where
  -- What the counter `i` of the loop makes of the slice.
  abbrev cut : ℕ → List (PacketHook H) → List (PacketHook H)
  cut i hooks = if i == length hooks then hooks else take i hooks ++ drop (i + 1) hooks

  cut-suc :
      (i : ℕ) (hook : PacketHook H) (hooks : List (PacketHook H))
      → cut (i + 1) (hook ∷ hooks) ≡ hook ∷ cut i hooks
  cut-suc i hook hooks = ground arith

  cut-length :
      (id : ℕ) (hooks : List (PacketHook H))
      → (index_of id hooks == length hooks) ≡ true
      → cut (index_of id hooks) hooks ≡ hooks
  cut-length id hooks l = rw l refl

  cut_erase :
      (id : ℕ) (hooks : List (PacketHook H)) → cut (index_of id hooks) hooks ≡ erase_id id hooks
  unfolding index_of
  cut_erase id [] = refl
  cut_erase id (hook ∷ hooks) = elim (Bool-cases (hook.id == id)) [
    | inl e ↦ rw e (ground arith)
    | inr e ↦
        rw e
          (cut-suc (index_of id hooks) hook hooks ∙ ap (λ rest. hook ∷ rest) (cut_erase id hooks))
  ]

  remove_at_erase : (id : ℕ) (hooks : List (PacketHook H)) → remove_at id hooks ≡ erase_id id hooks
  unfolding remove_at
  remove_at_erase id hooks = cut_erase id hooks

  erase_id-Below :
      (p : ℤ) (id : ℕ) (hooks : List (PacketHook H)) → Below p hooks → Below p (erase_id id hooks)
  erase_id-Below p id [] b = tt
  erase_id-Below p id (hook ∷ hooks) (b, bs) = elim (Bool-cases (hook.id == id)) [
    | inl e ↦ rw e bs
    | inr e ↦ rw e (b, erase_id-Below p id hooks bs)
  ]

  erase_id-IsDescending :
      (id : ℕ) (hooks : List (PacketHook H)) → IsDescending hooks → IsDescending (erase_id id hooks)
  erase_id-IsDescending id [] d = tt
  erase_id-IsDescending id (hook ∷ hooks) (b, d) = elim (Bool-cases (hook.id == id)) [
    | inl e ↦ rw e d
    | inr e ↦ rw e (erase_id-Below hook.priority id hooks b, erase_id-IsDescending id hooks d)
  ]

  abbrev pub is_none : Option (List (PacketHook H)) → Bool
  is_none none = true
  is_none (some _) = false

  -- The slice of the hook's target.
  erased_self :
      (old : PacketHook H) (m : HookMap H) (slice : Option (List (PacketHook H)))
      → m old.target ≡ slice
      → hooks_at (remove_from old m slice).0 old.target ≡ erase_id old.id (hooks_at m old.target)
  unfolding remove_from
  erased_self old m none e =
      subst (λ slice. slice_of slice ≡ erase_id old.id (slice_of slice)) (sym e) refl
  erased_self old m (some hooks) e = elim (Bool-cases (index_of old.id hooks == length hooks)) [
    | inl l ↦ rw l (
        subst (λ slice. slice_of slice ≡ erase_id old.id (slice_of slice)) (sym e)
          (sym (cut-length old.id hooks l) ∙ cut_erase old.id hooks))
    | inr l ↦ rw l (
        hooks_at-put_self old.target (remove_at old.id hooks) m
        ∙ remove_at_erase old.id hooks
        ∙ sym (ap (λ slice. erase_id old.id (slice_of slice)) e))
  ]

  erased_other :
      (old : PacketHook H) (m : HookMap H) (slice : Option (List (PacketHook H))) (t : Bytes)
      → bytes_eq old.target t ≡ false
      → hooks_at (remove_from old m slice).0 t ≡ hooks_at m t
  unfolding remove_from
  erased_other old m none t e = refl
  erased_other old m (some hooks) t e = elim (Bool-cases (index_of old.id hooks == length hooks)) [
    | inl l ↦ rw l refl
    | inr l ↦ rw l (hooks_at-put_ne old.target t (remove_at old.id hooks) m e)
  ]

  warned :
      (old : PacketHook H) (m : HookMap H) (slice : Option (List (PacketHook H)))
      → (remove_from old m slice).1 ≡ is_none slice
  unfolding remove_from
  warned old m none = refl
  warned old m (some hooks) = refl

  -- `removeHook` takes the first hook with the pointer out of the slice of the hook's target, keeps
  -- the order of the others, and leaves every other slice alone; it warns exactly if there is no
  -- slice for the target.
  pub remove_hook-erases :
      (old : PacketHook H) (m : HookMap H)
      → ((t : Bytes)
          → hooks_at (remove_hook old m).0 t
            ≡ (if bytes_eq old.target t then erase_id old.id (hooks_at m t) else hooks_at m t))
        × ((remove_hook old m).1 ≡ is_none (m old.target))
  unfolding remove_hook
  remove_hook-erases old m = (
    λ t. elim (Bool-cases (bytes_eq old.target t)) [
      | inl e ↦ rw e (
          subst
            (λ t. hooks_at (remove_from old m (m old.target)).0 t ≡ erase_id old.id (hooks_at m t))
            ((bytes_eq_iff old.target t).0 e) (erased_self old m (m old.target) refl))
      | inr e ↦ rw e (erased_other old m (m old.target) t e)
    ],
    warned old m (m old.target),
  )

  IsDescending-if :
      (b : Bool) (id : ℕ) (hooks : List (PacketHook H))
      → IsDescending hooks
      → IsDescending (if b then erase_id id hooks else hooks)
  IsDescending-if true id hooks d = erase_id-IsDescending id hooks d
  IsDescending-if false id hooks d = d

  pub remove_hook-IsOrdered :
      (old : PacketHook H) (m : HookMap H) → IsOrdered m → IsOrdered (remove_hook old m).0
  remove_hook-IsOrdered old m o t =
      subst IsDescending (sym ((remove_hook-erases old m).0 t))
        (IsDescending-if (bytes_eq old.target t) old.id (hooks_at m t) (o t))
