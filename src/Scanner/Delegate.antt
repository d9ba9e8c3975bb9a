-- ===== src/Scanner/Delegate.antt =====
-- The step functions that call another one: with the bytes for which they do, a run from the one
-- is a run from the other.
use rhine.Prelude.{ap, ℕ, Bool, false, ◌||◌, [], ◌∷◌, ◌≡◌, refl, arith, Bytes, ◌==◌}
use rhine.Scanner.State.{
  after_e_sign, begin_string, begin_value, after_e, is_space, begin_string_or_empty,
  begin_value_or_empty, parse_array_value, parse_object_key, parse_object_value, State, end_value,
  after_1, after_0, after_dot0, after_e0,
}
use rhine.Scanner.Step.{step_at, is_digit}
use rhine.Scanner.Run.{eof, on_step, accepted, scan_all, accepts}
use rhine.Scanner.Config.{Stack, at, next}

-- The states in which a value may have ended, or may go on.
pub data EndsValue : State → Type 0 where
  at_end : EndsValue end_value
  at_1 : EndsValue after_1
  at_0 : EndsValue after_0
  at_dot0 : EndsValue after_dot0
  at_e0 : EndsValue after_e0

-- The byte carries the number on.
abbrev pub goes_on : State → ℕ → Bool
goes_on after_1 c = is_digit c || c == b'.' || c == b'e' || c == b'E'
goes_on after_0 c = c == b'.' || c == b'e' || c == b'E'
goes_on after_dot0 c = is_digit c || c == b'e' || c == b'E'
goes_on after_e0 c = is_digit c
goes_on _ c = false

pub step-number :
    {k : State} (c : ℕ) (st : Stack) (n : ℕ)
    → EndsValue k
    → goes_on k c ≡ false
    → step_at k (at k st n) c ≡ step_at end_value (at end_value st n) c
unfolding step_at
step-number c [] n at_end h = refl
step-number c (parse_object_key ∷ st) n at_end h = refl
step-number c (parse_object_value ∷ st) n at_end h = refl
step-number c (parse_array_value ∷ st) n at_end h = refl
step-number c _ n _ h = ground arith

-- `]` behind `[`, and any other byte that is not white space.
step-empty_array :
    (st : Stack) (n : ℕ)
    → step_at begin_value_or_empty (at begin_value_or_empty (parse_array_value ∷ st) n) b']'
      ≡ step_at end_value (at end_value (parse_array_value ∷ st) n) b']'
unfolding step_at is_space
step-empty_array [] n = refl
step-empty_array (_ ∷ st) n = refl

step-first_element :
    (c : ℕ) (st : Stack) (n : ℕ)
    → is_space c ≡ false
    → (c == b']') ≡ false
    → step_at begin_value_or_empty (at begin_value_or_empty st n) c
      ≡ step_at begin_value (at begin_value st n) c
unfolding step_at
step-first_element c st n = ground arith

-- `}` behind `{`, where the parse state is changed first, and any other byte.
step-empty_object :
    (st : Stack) (n : ℕ)
    → step_at begin_string_or_empty (at begin_string_or_empty (parse_object_key ∷ st) n) b'}'
      ≡ step_at end_value (at end_value (parse_object_value ∷ st) n) b'}'
unfolding step_at is_space
step-empty_object [] n = refl
step-empty_object (_ ∷ st) n = refl

step-first_member :
    (c : ℕ) (st : Stack) (n : ℕ)
    → is_space c ≡ false
    → (c == b'}') ≡ false
    → step_at begin_string_or_empty (at begin_string_or_empty st n) c
      ≡ step_at begin_string (at begin_string st n) c
unfolding step_at
step-first_member c st n = ground arith

-- The sign of an exponent may be left out.
step-unsigned :
    (c : ℕ) (st : Stack) (n : ℕ)
    → (c == b'+' || c == b'-') ≡ false
    → step_at after_e (at after_e st n) c ≡ step_at after_e_sign (at after_e_sign st n) c
unfolding step_at
step-unsigned c st n = ground arith

module _ (k k' : State) (st st' : Stack) (c : ℕ) (xs : Bytes) (n : ℕ) where
  accepts-same_step :
      step_at k (at k st (next n)) c ≡ step_at k' (at k' st' (next n)) c
      → accepts (at k st n) (c ∷ xs) ≡ accepts (at k' st' n) (c ∷ xs)
  unfolding scan_all
  accepts-same_step e = ap (λ o. accepted (on_step o (λ s. scan_all s xs))) e

module _ {k : State} (st : Stack) (n : ℕ) (ends : EndsValue k) where
  pub accepts-number :
      (c : ℕ) (xs : Bytes)
      → goes_on k c ≡ false
      → accepts (at k st n) (c ∷ xs) ≡ accepts (at end_value st n) (c ∷ xs)
  accepts-number c xs h =
      accepts-same_step k end_value st st c xs n (step-number c st (next n) ends h)

-- Where the text ends a number ends too.
pub eof-number :
    {k : State} (st : Stack) (n : ℕ) → EndsValue k → eof (at k st n) ≡ eof (at end_value st n)
unfolding eof is_digit
eof-number st n at_end = refl
eof-number st n at_1 = rw (step-number b' ' st n at_1 refl)
eof-number st n at_0 = rw (step-number b' ' st n at_0 refl)
eof-number st n at_dot0 = rw (step-number b' ' st n at_dot0 refl)
eof-number st n at_e0 = rw (step-number b' ' st n at_e0 refl)

pub accepts-number_nil :
    {k : State} (st : Stack) (n : ℕ)
    → EndsValue k
    → accepts (at k st n) [] ≡ accepts (at end_value st n) []
unfolding scan_all
accepts-number_nil st n v = ap accepted (eof-number st n v)

module _ (st : Stack) (n : ℕ) (xs : Bytes) where
  pub accepts-empty_array :
      accepts (at begin_value_or_empty (parse_array_value ∷ st) n) (b']' ∷ xs)
      ≡ accepts (at end_value (parse_array_value ∷ st) n) (b']' ∷ xs)
  accepts-empty_array = accepts-same_step _ _ _ _ _ _ n (step-empty_array st (next n))

  pub accepts-empty_object :
      accepts (at begin_string_or_empty (parse_object_key ∷ st) n) (b'}' ∷ xs)
      ≡ accepts (at end_value (parse_object_value ∷ st) n) (b'}' ∷ xs)
  accepts-empty_object = accepts-same_step _ _ _ _ _ _ n (step-empty_object st (next n))

  pub accepts-first_element :
      (c : ℕ)
      → is_space c ≡ false
      → (c == b']') ≡ false
      → accepts (at begin_value_or_empty st n) (c ∷ xs) ≡ accepts (at begin_value st n) (c ∷ xs)
  accepts-first_element c p q =
      accepts-same_step _ _ _ _ _ _ n (step-first_element c st (next n) p q)

  pub accepts-first_member :
      (c : ℕ)
      → is_space c ≡ false
      → (c == b'}') ≡ false
      → accepts (at begin_string_or_empty st n) (c ∷ xs) ≡ accepts (at begin_string st n) (c ∷ xs)
  accepts-first_member c p q = accepts-same_step _ _ _ _ _ _ n (step-first_member c st (next n) p q)

  pub accepts-unsigned :
      (c : ℕ)
      → (c == b'+' || c == b'-') ≡ false
      → accepts (at after_e st n) (c ∷ xs) ≡ accepts (at after_e_sign st n) (c ∷ xs)
  accepts-unsigned c p = accepts-same_step _ _ _ _ _ _ n (step-unsigned c st (next n) p)
