-- ===== src/Scanner/Sound/Ends.antt =====
-- From a run that accepts to the grammar: the states that call another one, and the end of the
-- text.
use rhine.Prelude.{[], inr, ◌||◌, inl, arith, ◌==◌, ◌∷◌, false, true, ◌≡◌, Bytes, ℕ, Bool-cases}
use rhine.Scanner.Run.{scan_all, accepts}
use rhine.Scanner.Step.{step_at}
use rhine.Scanner.State.{
  parse_object_value, after_e0, after_1, after_e_sign, after_dot0, after_dot, begin_string_or_empty,
  begin_value_or_empty, begin_string, parse_object_key, parse_array_value, after_0, is_space,
  after_e, end_value, State,
}
use rhine.Scanner.Config.{next, HasTop, at, Fits, Stack}
use rhine.Scanner.Residual.{Completes}
use rhine.Scanner.Delegate.{
  at_e0, at_dot0, at_1, at_end, accepts-first_element, at_0, accepts-first_member, accepts-unsigned,
  accepts-empty_array, accepts-empty_object, accepts-number, goes_on, EndsValue,
}
use rhine.Scanner.Sound.Composite.{
  begin_value_sound, skipped_object, closing_array, skipped_array, closing_object,
  begin_string_sound, end_value_sound,
}
use rhine.Scanner.Residual.Composite.{
  Completes-first_member, Completes-first_element, Completes-blank_array, Completes-blank_object,
  Completes-empty_object, Completes-empty_array,
}
use rhine.Scanner.Residual.Text.{
  Completes-E, Completes-minus, Completes-end_e0, Completes-e, Completes-frac_digit,
  Completes-integer, Completes-int_digit, Completes-end_dot0, Completes-plus, Completes-exp_digit,
  Completes-end_0, Completes-E0, Completes-e0, Completes-dot, Completes-unsigned,
}
use rhine.Scanner.Sound.Text.{after_e_sign_sound}

module _ (c : ℕ) (xs : Bytes)
    (ih : (k : State) (st : Stack) (n : ℕ)
      → Fits k st
      → accepts (at k st n) xs ≡ true
      → Completes k st xs) where
  begin_array-byte :
      (st : Stack) (n : ℕ)
      → is_space c ≡ false
      → accepts (at begin_value_or_empty (parse_array_value ∷ st) n) (c ∷ xs) ≡ true
      → Completes begin_value_or_empty (parse_array_value ∷ st) (c ∷ xs)
  begin_array-byte st n p h = elim (Bool-cases (c == b']')) [
    | inl e ↦
        let q : c ≡ b']' = ground arith in
        Completes-empty_array c st xs q
          (closing_array c xs ih st n (rw (← accepts-empty_array st n xs) (rw q at h)))
    | inr e ↦
        Completes-first_element st (c ∷ xs)
          (begin_value_sound c xs ih _ n (rw (← accepts-first_element _ n xs c p e) h))
  ]

  pub begin_array_sound :
      (st : Stack) (n : ℕ)
      → HasTop parse_array_value st
      → accepts (at begin_value_or_empty st n) (c ∷ xs) ≡ true
      → Completes begin_value_or_empty st (c ∷ xs)
  begin_array_sound [] n t h = elim t [ ]
  begin_array_sound (parse_object_key ∷ st) n t h = cc
  begin_array_sound (parse_object_value ∷ st) n t h = cc
  begin_array_sound (parse_array_value ∷ st) n t h = elim (Bool-cases (is_space c)) [
    | inl e ↦ Completes-blank_array c st xs e (skipped_array c xs ih st n e h)
    | inr e ↦ begin_array-byte st n e h
  ]

  begin_object-byte :
      (st : Stack) (n : ℕ)
      → is_space c ≡ false
      → accepts (at begin_string_or_empty (parse_object_key ∷ st) n) (c ∷ xs) ≡ true
      → Completes begin_string_or_empty (parse_object_key ∷ st) (c ∷ xs)
  begin_object-byte st n p h = elim (Bool-cases (c == b'}')) [
    | inl e ↦
        let q : c ≡ b'}' = ground arith in
        Completes-empty_object c st xs q
          (closing_object c xs ih st n (rw (← accepts-empty_object st n xs) (rw q at h)))
    | inr e ↦
        Completes-first_member st (c ∷ xs)
          (begin_string_sound c xs ih _ n (rw (← accepts-first_member _ n xs c p e) h))
  ]

  pub begin_object_sound :
      (st : Stack) (n : ℕ)
      → HasTop parse_object_key st
      → accepts (at begin_string_or_empty st n) (c ∷ xs) ≡ true
      → Completes begin_string_or_empty st (c ∷ xs)
  begin_object_sound [] n t h = elim t [ ]
  begin_object_sound (parse_array_value ∷ st) n t h = cc
  begin_object_sound (parse_object_value ∷ st) n t h = cc
  begin_object_sound (parse_object_key ∷ st) n t h = elim (Bool-cases (is_space c)) [
    | inl e ↦ Completes-blank_object c st xs e (skipped_object c xs ih st n e h)
    | inr e ↦ begin_object-byte st n e h
  ]

  pub begin_key_sound :
      (st : Stack) (n : ℕ)
      → HasTop parse_object_key st
      → accepts (at begin_string st n) (c ∷ xs) ≡ true
      → Completes begin_string st (c ∷ xs)
  begin_key_sound [] n t h = elim t [ ]
  begin_key_sound (parse_array_value ∷ st) n t h = cc
  begin_key_sound (parse_object_value ∷ st) n t h = cc
  begin_key_sound (parse_object_key ∷ st) n t h = begin_string_sound c xs ih st n h

  signed :
      (st : Stack) (n : ℕ)
      → (c == b'+' || c == b'-') ≡ true
      → accepts (at after_e st n) (c ∷ xs) ≡ true
      → Completes after_e st (c ∷ xs)
  unfolding scan_all step_at
  signed st n e h =
      ground
        (arith, ih after_e_sign st (next n) tt, Completes-plus c st xs, Completes-minus c st xs)

  pub after_e_sound :
      (st : Stack) (n : ℕ)
      → accepts (at after_e st n) (c ∷ xs) ≡ true
      → Completes after_e st (c ∷ xs)
  after_e_sound st n h = elim (Bool-cases (c == b'+' || c == b'-')) [
    | inl e ↦ signed st n e h
    | inr e ↦
        Completes-unsigned st (c ∷ xs)
          (after_e_sign_sound c xs ih st n (rw (← accepts-unsigned st n xs c e) h))
  ]

-- The numbers: a byte that carries the number on, or the end of the value.
module _ (c : ℕ) (xs : Bytes)
    (ih : (k : State) (st : Stack) (n : ℕ)
      → Fits k st
      → accepts (at k st n) xs ≡ true
      → Completes k st xs)
    (st : Stack) (n : ℕ) where
  ends_number :
      {k : State}
      → EndsValue k
      → goes_on k c ≡ false
      → accepts (at k st n) (c ∷ xs) ≡ true
      → Completes end_value st (c ∷ xs)
  ends_number e g h = end_value_sound c xs ih st n (rw (← accepts-number st n e c xs g) h)

  ends_0 : Completes end_value st (c ∷ xs) → Completes after_1 st (c ∷ xs)
  ends_0 h = Completes-integer st (c ∷ xs) (Completes-end_0 st (c ∷ xs) h)

  carries_0 :
      goes_on after_0 c ≡ true
      → accepts (at after_0 st n) (c ∷ xs) ≡ true
      → Completes after_0 st (c ∷ xs)
  unfolding scan_all step_at
  carries_0 g h = ground (
    arith,
    ih after_dot st (next n) tt,
    ih after_e st (next n) tt,
    Completes-dot c st xs,
    Completes-e0 c st xs,
    Completes-E0 c st xs,
  )

  carries_1 :
      goes_on after_1 c ≡ true
      → accepts (at after_1 st n) (c ∷ xs) ≡ true
      → Completes after_1 st (c ∷ xs)
  unfolding scan_all step_at
  carries_1 g h = ground (
    arith,
    ih after_1 st (next n) tt,
    ih after_dot st (next n) tt,
    ih after_e st (next n) tt,
    Completes-int_digit c st xs,
    Completes-dot c st xs,
    Completes-e0 c st xs,
    Completes-E0 c st xs,
    Completes-integer st (c ∷ xs),
  )

  carries_dot0 :
      goes_on after_dot0 c ≡ true
      → accepts (at after_dot0 st n) (c ∷ xs) ≡ true
      → Completes after_dot0 st (c ∷ xs)
  unfolding scan_all step_at
  carries_dot0 g h = ground (
    arith,
    ih after_dot0 st (next n) tt,
    ih after_e st (next n) tt,
    Completes-frac_digit c st xs,
    Completes-e c st xs,
    Completes-E c st xs,
  )

  carries_e0 :
      goes_on after_e0 c ≡ true
      → accepts (at after_e0 st n) (c ∷ xs) ≡ true
      → Completes after_e0 st (c ∷ xs)
  unfolding scan_all step_at
  carries_e0 g h = ground (arith, ih after_e0 st (next n) tt, Completes-exp_digit c st xs)

  pub number_sound :
      {k : State} → EndsValue k → accepts (at k st n) (c ∷ xs) ≡ true → Completes k st (c ∷ xs)
  number_sound at_end h = end_value_sound c xs ih st n h
  number_sound at_1 h = elim (Bool-cases (goes_on after_1 c)) [
    | inl g ↦ carries_1 g h
    | inr g ↦ ends_0 (ends_number at_1 g h)
  ]
  number_sound at_0 h = elim (Bool-cases (goes_on after_0 c)) [
    | inl g ↦ carries_0 g h
    | inr g ↦ Completes-end_0 st (c ∷ xs) (ends_number at_0 g h)
  ]
  number_sound at_dot0 h = elim (Bool-cases (goes_on after_dot0 c)) [
    | inl g ↦ carries_dot0 g h
    | inr g ↦ Completes-end_dot0 st (c ∷ xs) (ends_number at_dot0 g h)
  ]
  number_sound at_e0 h = elim (Bool-cases (goes_on after_e0 c)) [
    | inl g ↦ carries_e0 g h
    | inr g ↦ Completes-end_e0 st (c ∷ xs) (ends_number at_e0 g h)
  ]
