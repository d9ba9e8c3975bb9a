-- ===== src/Prelude/Tests.antt =====
-- Boolean tests on the native numbers, the conditional, and splits that keep an equation.
use Prim.Native.Nat.{ℕ, compare, Ordering}
use mathlib.Core.Bool.{Bool, true, false, ◌&&◌}
use mathlib.Core.List.{List, [], ◌∷◌}
use mathlib.Core.Logic.{◌↔◌, ◌⊎◌, inl, inr}
use mathlib.Core.Path.{◌≡◌, refl}
use native.Mathlib.Omega.{arith}

abbrev pub ltb : ℕ → ℕ → Bool
ltb a b = elim (compare a b) [ Ordering.lt ↦ true | _ ↦ false ]

abbrev pub leb : ℕ → ℕ → Bool
leb a b = elim (compare a b) [ Ordering.gt ↦ false | _ ↦ true ]

infix 50 ◌==◌
abbrev pub ◌==◌ : ℕ → ℕ → Bool
a == b = elim (compare a b) [ Ordering.eq ↦ true | _ ↦ false ]

infix 1 if◌then◌else◌
abbrev pub if◌then◌else◌ {ℓ} : {A : Type ℓ} → Bool → A → A → A
if true then x else y = x
if false then x else y = y

pub Bool-cases : (b : Bool) → (b ≡ true) ⊎ (b ≡ false)
Bool-cases true = inl refl
Bool-cases false = inr refl

-- Bytes, and their comparison (`==` on Go strings).
abbrev pub Bytes : Type 0
Bytes = List ℕ

unfoldable pub bytes_eq : Bytes → Bytes → Bool
bytes_eq [] [] = true
bytes_eq (x ∷ xs) (y ∷ ys) = x == y && bytes_eq xs ys
bytes_eq _ _ = false

pub bytes_eq_iff : (a b : Bytes) → (bytes_eq a b ≡ true) ↔ (a ≡ b)
unfolding bytes_eq
bytes_eq_iff (x ∷ a) (y ∷ b) = ground (arith, bytes_eq_iff a b)
bytes_eq_iff _ _ = ground arith

pub eq_self : (n : ℕ) → (n == n) ≡ true
eq_self n = ground arith
