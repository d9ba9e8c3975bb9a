-- ===== src/Slices.antt =====
-- Taking the first entry that passes a test out of a slice, by its index and by recursion, and
-- slices that are cut.
use rhine.Prelude.{
  set, length-append, ◌-◌, suc, List, [], ◌∷◌, ◌++◌, ◌≡◌, refl, ap, ◌∙◌, Bool, true, false, inl,
  inr, Bool-cases, ◌==◌, length, take, drop, ℕ, ◌+◌, arith, if◌then◌else◌,
}
use mathlib.Core.List.{nil≢cons}
use Prim.Native.Nat.{zero}

-- The counter of a loop that stops at the entry.
unfoldable pub count_before {ℓ} : {A : Type ℓ} → (A → Bool) → List A → ℕ
count_before p [] = 0
count_before p (x ∷ xs) = if p x then 0 else count_before p xs + 1

-- `append(xs[:i], xs[i+1:]...)`, if the loop has found one.
abbrev pub cut_at {ℓ} : {A : Type ℓ} → ℕ → List A → List A
cut_at i xs = if i == length xs then xs else take i xs ++ drop (i + 1) xs

unfoldable pub erase_first {ℓ} : {A : Type ℓ} → (A → Bool) → List A → List A
erase_first p [] = []
erase_first p (x ∷ xs) = if p x then xs else x ∷ erase_first p xs

cut_at-suc {ℓ} :
    {A : Type ℓ} (i : ℕ) (x : A) (xs : List A) → cut_at (i + 1) (x ∷ xs) ≡ x ∷ cut_at i xs
cut_at-suc i x xs = ground arith

pub cut_at_erase {ℓ} :
    {A : Type ℓ} (p : A → Bool) (xs : List A) → cut_at (count_before p xs) xs ≡ erase_first p xs
unfolding count_before erase_first
cut_at_erase p [] = refl
cut_at_erase p (x ∷ xs) = elim (Bool-cases (p x)) [
  | inl e ↦ rw e (ground arith)
  | inr e ↦ rw e (cut_at-suc (count_before p xs) x xs ∙ ap (λ r. x ∷ r) (cut_at_erase p xs))
]

unfoldable pub has {ℓ} : {A : Type ℓ} → (A → Bool) → List A → Bool
has p [] = false
has p (x ∷ xs) = if p x then true else has p xs

-- An entry that is taken out of the front part of a slice.
pub erase_first-has {ℓ} :
    {A : Type ℓ} (p : A → Bool) (xs ys : List A)
    → erase_first p xs ++ ys ≡ (if has p xs then erase_first p (xs ++ ys) else xs ++ ys)
unfolding erase_first has
erase_first-has p [] ys = refl
erase_first-has p (x ∷ xs) ys = elim (Bool-cases (p x)) [
  | inl e ↦ rw e refl
  | inr e ↦
      let h = erase_first-has p xs ys in
      elim (Bool-cases (has p xs)) [
        | inl i ↦ rw (e, i) (ap (λ r. x ∷ r) (h ∙ rw i refl))
        | inr i ↦ rw (e, i) (ap (λ r. x ∷ r) (h ∙ rw i refl))
      ]
]

-- No entry passes the test.
abbrev pub NoneOf {ℓ} : {A : Type ℓ} → (A → Bool) → List A → Type 0
NoneOf p [] = Unit
NoneOf p (x ∷ xs) = (p x ≡ false) × NoneOf p xs

-- An entry that was added behind a slice with no such entry.
pub erase_first-append {ℓ} :
    {A : Type ℓ} (p : A → Bool) (x : A) (xs : List A)
    → p x ≡ true
    → NoneOf p xs
    → erase_first p (xs ++ x ∷ []) ≡ xs
unfolding erase_first
erase_first-append p x [] e n = rw e refl
erase_first-append p x (y ∷ xs) e (n, ns) = rw n (ap (λ r. y ∷ r) (erase_first-append p x xs e ns))

-- Slices cut at the length of a part.
module _ {A : Type 0} where
  pub take-length : (xs : List A) → take (length xs) xs ≡ xs
  take-length [] = refl
  take-length (x ∷ xs) = ap (λ r. x ∷ r) (take-length xs)

  pub take-append : (xs ys : List A) → take (length xs) (xs ++ ys) ≡ xs
  take-append [] ys = refl
  take-append (x ∷ xs) ys = ap (λ r. x ∷ r) (take-append xs ys)

  pub drop-append : (xs ys : List A) → drop (length xs) (xs ++ ys) ≡ ys
  drop-append [] ys = refl
  drop-append (x ∷ xs) ys = drop-append xs ys

  pub drop-suc :
      (i : ℕ) (arr : List A) (x : A) (ys : List A) → drop i arr ≡ x ∷ ys → drop (i + 1) arr ≡ ys
  drop-suc zero arr x ys e = ap (drop 1) e
  drop-suc (suc i) [] x ys e = absurd (nil≢cons e)
  drop-suc (suc i) (a ∷ arr) x ys e =
      let n : suc i + 1 ≡ suc (i + 1) = omega arith in
      ap (λ n. drop n (a ∷ arr)) n ∙ drop-suc i arr x ys e

  abbrev pub last_of : A → List A → A
  last_of x [] = x
  last_of x (y ∷ ys) = last_of y ys

  pub drop_more : (xs zs : List A) (n : ℕ) → drop (length xs + n) (xs ++ zs) ≡ drop n zs
  drop_more [] zs n = let m : 0 + n ≡ n = omega arith in ap (λ n. drop n zs) m
  drop_more (x ∷ xs) zs n =
      let m : suc (length xs) + n ≡ suc (length xs + n) = omega arith in
      ap (λ n. drop n (x ∷ xs ++ zs)) m ∙ drop_more xs zs n

  drop-last_of : (x : A) (ys : List A) → drop (length ys) (x ∷ ys) ≡ last_of x ys ∷ []
  drop-last_of x [] = refl
  drop-last_of x (y ∷ ys) = drop-last_of y ys

  pub drop-last :
      (xs : List A) (x : A) (ys : List A)
      → drop (length (xs ++ x ∷ ys) - 1) (xs ++ x ∷ ys) ≡ last_of x ys ∷ []
  drop-last xs x ys =
      let n : length (xs ++ x ∷ ys) - 1 ≡ length xs + length ys =
        omega (arith, length-append xs (x ∷ ys)) in
      ap (λ n. drop n (xs ++ x ∷ ys)) n ∙ drop_more xs (x ∷ ys) (length ys) ∙ drop-last_of x ys

pub length-set {ℓ} : {A : Type ℓ} (xs : List A) (k : ℕ) (x : A) → length (set xs k x) ≡ length xs
length-set [] k x = refl
length-set (y ∷ xs) zero x = refl
length-set (y ∷ xs) (suc k) x = ap suc (length-set xs k x)
