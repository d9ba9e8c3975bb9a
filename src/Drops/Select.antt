-- ===== src/Drops/Select.antt =====
-- The rewards that are logged, against a filter.
use rhine.Drops.Logger.{
  Reward, BattleFinish, Table, names, is_positive, is_wanted, append_wanted, append_each, collect,
}
use mathlib.Core.List.{append_assoc, append-nil}
use rhine.Prelude.{
  arith, ℤ, pos, negsuc, suc, zero, Bool, true, false, bytes_eq, codes, refl, ap, map, some, inr,
  ◌∙◌, inl, Bool-cases, [], sym, if◌then◌else◌, ◌∷◌, ◌++◌, List, ◌≡◌,
}
use mathlib.Core.Option

-- The rewards of a list whose count is positive, without the gold, in order.
abbrev pub counts : ℤ → Bool
counts (pos zero) = false
counts (pos (suc n)) = true
counts (negsuc n) = false

unfoldable pub wanted : List Reward → List Reward
wanted [] = []
wanted (x ∷ xs) =
    if bytes_eq x.id (codes "4001")
    then wanted xs
    else if counts x.count
    then x ∷ wanted xs
    else wanted xs

is_positive-counts : (n : ℤ) → is_positive n ≡ counts n
is_positive-counts (pos zero) = refl
is_positive-counts (pos (suc n)) = ground arith
is_positive-counts (negsuc n) = refl

wanted-is_wanted :
    (x : Reward) (xs : List Reward)
    → wanted (x ∷ xs) ≡ (if is_wanted x then x ∷ wanted xs else wanted xs)
unfolding wanted is_wanted
wanted-is_wanted x xs = elim (Bool-cases (bytes_eq x.id (codes "4001"))) [
  | inl g ↦ elim (Bool-cases (counts x.count)) [
    | inl c ↦ rw (is_positive-counts x.count, g, c) refl
    | inr c ↦ rw (is_positive-counts x.count, g, c) refl
  ]
  | inr g ↦ elim (Bool-cases (counts x.count)) [
    | inl c ↦ rw (is_positive-counts x.count, g, c) refl
    | inr c ↦ rw (is_positive-counts x.count, g, c) refl
  ]
]

-- The names and counts of the rewards that are wanted.
pub names-wanted :
    (table : Table) (xs : List Reward)
    → names (some table) (wanted xs) ≡ some (map (λ x. (table x.id, x.count)) (wanted xs))
unfolding names wanted
names-wanted table [] = refl
names-wanted table (x ∷ xs) = elim (Bool-cases (bytes_eq x.id (codes "4001"))) [
  | inl g ↦ rw g (names-wanted table xs)
  | inr g ↦ elim (Bool-cases (counts x.count)) [
    | inl c ↦
        rw (g, c, is_positive-counts x.count, c)
          (ap (Option.map (λ r. (table x.id, x.count) ∷ r)) (names-wanted table xs))
    | inr c ↦ rw (g, c) (names-wanted table xs)
  ]
]

pub wanted-append : (xs ys : List Reward) → wanted (xs ++ ys) ≡ wanted xs ++ wanted ys
unfolding wanted
wanted-append [] ys = refl
wanted-append (x ∷ xs) ys = elim (Bool-cases (bytes_eq x.id (codes "4001"))) [
  | inl g ↦ rw g (wanted-append xs ys)
  | inr g ↦ elim (Bool-cases (counts x.count)) [
    | inl c ↦ rw (g, c) (ap (λ r. x ∷ r) (wanted-append xs ys))
    | inr c ↦ rw (g, c) (wanted-append xs ys)
  ]
]

wanted-nil : wanted [] ≡ []
unfolding wanted
wanted-nil = refl

append_wanted-wanted : (out xs : List Reward) → append_wanted out xs ≡ out ++ wanted xs
unfolding append_wanted
append_wanted-wanted out [] = sym (append-nil out) ∙ ap (λ r. out ++ r) (sym wanted-nil)
append_wanted-wanted out (x ∷ xs) =
    let same : wanted (x ∷ xs) ≡ (if is_wanted x then x ∷ wanted xs else wanted xs) =
      wanted-is_wanted x xs in
    elim (Bool-cases (is_wanted x)) [
      | inl e ↦
          rw (e, same, e)
            (append_wanted-wanted (out ++ x ∷ []) xs ∙ append_assoc out (x ∷ []) (wanted xs))
      | inr e ↦ rw (e, same, e) (append_wanted-wanted out xs)
    ]

-- The entry of a battle holds the rewards of its four lists, in order, without the gold and those
-- whose count is not positive.
pub collect-wanted :
    (b : BattleFinish)
    → collect b
      ≡ wanted (b.rewards ++ b.unusual_rewards ++ b.additional_rewards ++ b.furniture_rewards)
unfolding collect append_each
collect-wanted b = simp (append_wanted-wanted, append_assoc, wanted-append)
