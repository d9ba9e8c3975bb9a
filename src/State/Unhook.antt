-- ===== src/State/Unhook.antt =====
-- What `Unhook` does to the hooks of a state, and to those that are not attached yet.
use rhine.State.Store.{GameState, Attached, attach_hook, attach_taken}
use rhine.State.Calls.{unhook, returns, panics, waits, Called, is_same, without}
use rhine.Slices.{erase_first, cut_at_erase, NoneOf, erase_first-append}
use rhine.Prelude.{
  bytes_eq_iff, eq_self, inr, inl, Bool-cases, List, Option, none, some, Bytes, bytes_eq,
  if◌then◌else◌, Bool, ◌≡◌, refl, ap, sym, ◌∙◌, true, false, ◌++◌, ◌∷◌, [],
}
use mathlib.Core.Path.{subst}

-- What `Unhook` of a hook makes of the attached hooks under a path.
abbrev pub erased : Attached → Bytes → List Attached → List Attached
erased old path hooks =
    if bytes_eq old.hook.target path then erase_first (is_same old) hooks else hooks

pub without_erase :
    (b : Bool) (old : Attached) (hooks : List Attached)
    → (if b then without old hooks else hooks)
      ≡ (if b then erase_first (is_same old) hooks else hooks)
unfolding without
without_erase true old hooks = cut_at_erase (is_same old) hooks
without_erase false old hooks = refl

erased-attached :
    (h : Attached) (hooks : Bytes → List Attached) (path : Bytes)
    → NoneOf (is_same h) (hooks h.hook.target)
    → erased h path (if bytes_eq h.hook.target path then hooks path ++ h ∷ [] else hooks path)
      ≡ hooks path
erased-attached h hooks path new = elim (Bool-cases (bytes_eq h.hook.target path)) [
  | inl e ↦ rw e (
      erase_first-append (is_same h) h (hooks path) (eq_self h.id)
        (subst (λ p. NoneOf (is_same h) (hooks p)) ((bytes_eq_iff h.hook.target path).0 e) new))
  | inr e ↦ rw e refl
]

module _ {U P E : Type 0} where
  -- The call returns; the hooks are erased, and those that wait to be attached still wait.
  abbrev pub IsUnhooked : Attached → GameState U P E → Called (GameState U P E) → Type 0
  IsUnhooked old g waits = g.locked ≡ true
  IsUnhooked old g panics = ⊥
  IsUnhooked old g (returns g') =
      ((path : Bytes) → g'.state_hooks path ≡ erased old path (g.state_hooks path))
      × ((g'.taken ≡ g.taken) × ((g'.queue ≡ g.queue) × (g.locked ≡ false)))

  -- `Unhook` of a hook waits exactly while the state is locked. Then it takes the first attached
  -- hook with the pointer out of the slice of its target and keeps the order of the others; it does
  -- not touch the hooks that still wait in the queue, so one of those is attached all the same.
  pub unhook-IsUnhooked :
      (old : Attached) (g : GameState U P E) → IsUnhooked old g (unhook (some old) g)
  unfolding unhook
  unhook-IsUnhooked old g = elim (Bool-cases g.locked) [
    | inl l ↦ rw l refl
    | inr l ↦ rw l (
      λ path. without_erase (bytes_eq old.hook.target path) old (g.state_hooks path),
      (refl, (refl, refl)),
    )
  ]

  -- The call returns, with the given hooks attached.
  abbrev pub Restores : (Bytes → List Attached) → Called (GameState U P E) → Type 0
  Restores hooks waits = ⊥
  Restores hooks panics = ⊥
  Restores hooks (returns g) = (path : Bytes) → g.state_hooks path ≡ hooks path

  abbrev IsBack : Attached → (Bytes → List Attached) → Option (GameState U P E) → Type 0
  IsBack h hooks none = Unit
  IsBack h hooks (some g) = Restores hooks (unhook (some h) g)

  attach_taken-IsBack :
      (h : Attached) (g : GameState U P E)
      → NoneOf (is_same h) (g.state_hooks h.hook.target)
      → IsBack h g.state_hooks (attach_taken (some h) g)
  unfolding attach_taken unhook
  attach_taken-IsBack h g new = elim (Bool-cases g.locked) [
    | inl l ↦ rw l tt
    | inr l ↦ rw l (λ path.
        without_erase (bytes_eq h.hook.target path) h
          (if bytes_eq h.hook.target path then g.state_hooks path ++ h ∷ [] else g.state_hooks path)
        ∙ erased-attached h g.state_hooks path new)
  ]

  -- If `parseHookQueue` attaches a hook whose pointer is not attached to its target, then its
  -- `Unhook` returns, with the attached hooks of every target as they were before.
  unhook-attach_hook :
      (h : Attached) (g g' : GameState U P E)
      → g.taken ≡ some h
      → NoneOf (is_same h) (g.state_hooks h.hook.target)
      → attach_hook g ≡ some g'
      → Restores g.state_hooks (unhook (some h) g')
  unfolding attach_hook
  unhook-attach_hook h g g' t new e =
      subst (IsBack h g.state_hooks) (ap (λ q. attach_taken q g) (sym t) ∙ e)
        (attach_taken-IsBack h g new)
