-- ===== src/Packet/Sorting.antt =====
-- An insertion sort, which meets the interface of `sort.Sort` that the hooks use.
use mathlib.Core.List.{◌∷◌, List, Perm}
use rhine.Prelude.{
  neg_part, false, inr, ◌+◌, pos_part, inl, true, arith, if◌then◌else◌, Bool-cases, leb, ◌≡◌, [],
  Bool, ◌≤ℤ◌, ℤ,
}
use rhine.Packet.Hook.{Below, IsDescending, Sorter, PacketHook}
use mathlib.Core.List.Perm

abbrev pub higher : {H : Type 0} → PacketHook H → PacketHook H → Bool
higher a b =
    leb (pos_part b.priority + neg_part a.priority) (pos_part a.priority + neg_part b.priority)

-- Insertion sort.
abbrev pub place : {H : Type 0} → PacketHook H → List (PacketHook H) → List (PacketHook H)
place hook [] = hook ∷ []
place hook (x ∷ xs) = if higher hook x then hook ∷ x ∷ xs else x ∷ place hook xs

abbrev pub insertion_sort : {H : Type 0} → List (PacketHook H) → List (PacketHook H)
insertion_sort [] = []
insertion_sort (hook ∷ hooks) = place hook (insertion_sort hooks)

module _ {H : Type 0} where
  place_perm : (hook : PacketHook H) (xs : List (PacketHook H)) → Perm (place hook xs) (hook ∷ xs)
  place_perm hook [] = Perm.refl (hook ∷ [])
  place_perm hook (x ∷ xs) = elim (Bool-cases (higher hook x)) [
    | inl e ↦ rw e (Perm.refl (hook ∷ x ∷ xs))
    | inr e ↦ rw e (Perm.trans (Perm.cons x (place_perm hook xs)) (Perm.swap hook x xs))
  ]

  pub sorted_perm : (hooks : List (PacketHook H)) → Perm (insertion_sort hooks) hooks
  sorted_perm [] = Perm.refl []
  sorted_perm (hook ∷ hooks) =
      Perm.trans (place_perm hook (insertion_sort hooks)) (Perm.cons hook (sorted_perm hooks))

  place-Below :
      (p : ℤ) (hook : PacketHook H) (xs : List (PacketHook H))
      → hook.priority ≤ℤ p
      → Below p xs
      → Below p (place hook xs)
  place-Below p hook [] h b = (h, tt)
  place-Below p hook (x ∷ xs) h (b, bs) = elim (Bool-cases (higher hook x)) [
    | inl e ↦ rw e (h, (b, bs))
    | inr e ↦ rw e (b, place-Below p hook xs h bs)
  ]

  Below-le : (p q : ℤ) (xs : List (PacketHook H)) → p ≤ℤ q → Below p xs → Below q xs
  Below-le p q [] l b = tt
  Below-le p q (x ∷ xs) l (b, bs) = (omega (arith, l, b), Below-le p q xs l bs)

  place-IsDescending :
      (hook : PacketHook H) (xs : List (PacketHook H))
      → IsDescending xs
      → IsDescending (place hook xs)
  place-IsDescending hook [] d = (tt, tt)
  place-IsDescending hook (x ∷ xs) (b, d) = elim (Bool-cases (higher hook x)) [
    | inl e ↦
        rw e (let l = higher_le hook x e in ((l, Below-le x.priority hook.priority xs l b), (b, d)))
    | inr e ↦
        rw e (place-Below x.priority hook xs (lower_le hook x e) b, place-IsDescending hook xs d)
  ]
    where
      higher_le : (a b : PacketHook H) → higher a b ≡ true → b.priority ≤ℤ a.priority
      higher_le a b e = ground arith

      lower_le : (a b : PacketHook H) → higher a b ≡ false → a.priority ≤ℤ b.priority
      lower_le a b e = ground arith

  pub sorted-IsDescending : (hooks : List (PacketHook H)) → IsDescending (insertion_sort hooks)
  sorted-IsDescending [] = tt
  sorted-IsDescending (hook ∷ hooks) =
      place-IsDescending hook (insertion_sort hooks) (sorted-IsDescending hooks)

abbrev pub sorter : {H : Type 0} → Sorter H
sorter = record {
  sort = insertion_sort;
  sort-perm = sorted_perm;
  sort-IsDescending = sorted-IsDescending;
}
