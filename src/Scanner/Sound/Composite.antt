-- ===== src/Scanner/Sound/Composite.antt =====
-- From a run that accepts to the grammar: the ends of numbers, and the states round values.
use rhine.Prelude.{some, ℕ, true, false, ◌∷◌, [], ◌≡◌, refl, arith, Bytes}
use rhine.Scanner.Run.{scan_all, accepts}
use rhine.Scanner.Step.{step_at}
use rhine.Scanner.Config.{closed, Stack, at, next, Fits}
use rhine.Scanner.Residual.{Completes}
use rhine.Scanner.State.{
  after_n, after_f, after_t, after_1, after_0, after_neg, begin_value_or_empty, in_string,
  begin_string_or_empty, begin_string, after_error, begin_value, end_top, end_value, SyntaxError,
  is_space, State, Scanner, parse_object_key, parse_object_value, parse_array_value,
}
use rhine.Scanner.Residual.Composite.{
  Completes-null, Completes-false, Completes-true, Completes-digit19, Completes-zero,
  Completes-negative, Completes-string, Completes-array, Completes-object, Completes-blank,
  Completes-key, Completes-close_array, Completes-next_element, Completes-blank_key,
  Completes-blank_top, Completes-close_object, Completes-next_member, Completes-colon,
  Completes-blank_end, Completes-blank_spaces,
}

-- Nothing is accepted behind an error.
not-accepts_error :
    (xs : Bytes) (s : Scanner) {x : SyntaxError}
    → s.step ≡ after_error
    → s.err ≡ some x
    → accepts s xs ≡ false
unfolding scan_all step_at
not-accepts_error [] s p q = ground arith
not-accepts_error (c ∷ xs) s p q = ground arith

accepts-trailing :
    (c : ℕ) (n : ℕ) (xs : Bytes) → is_space c ≡ false → accepts (at end_top [] n) (c ∷ xs) ≡ false
unfolding scan_all step_at
accepts-trailing c n xs h = rw h (not-accepts_error xs _ refl refl)

accepts-trailing_end :
    (c : ℕ) (n : ℕ) (xs : Bytes) → is_space c ≡ false → accepts (at end_value [] n) (c ∷ xs) ≡ false
unfolding scan_all step_at
accepts-trailing_end c n xs h = rw h (not-accepts_error xs _ refl refl)

module _ (c : ℕ) (xs : Bytes)
    (ih : (k : State) (st : Stack) (n : ℕ)
      → Fits k st
      → accepts (at k st n) xs ≡ true
      → Completes k st xs) where
  pub end_top_sound :
      (n : ℕ) → accepts (at end_top [] n) (c ∷ xs) ≡ true → Completes end_top [] (c ∷ xs)
  unfolding scan_all step_at
  end_top_sound n h =
      ground
        (arith, ih end_top [] (next n) refl, Completes-blank_spaces c xs, accepts-trailing c n xs)

  pub end_value_sound :
      (st : Stack) (n : ℕ)
      → accepts (at end_value st n) (c ∷ xs) ≡ true
      → Completes end_value st (c ∷ xs)
  unfolding scan_all step_at
  end_value_sound [] n h =
      ground
        (arith, ih end_top [] (next n) refl, Completes-blank_top c xs, accepts-trailing_end c n xs)
  end_value_sound (parse_object_key ∷ st) n h = ground (
    arith,
    ih end_value (parse_object_key ∷ st) (next n) tt,
    ih begin_value (parse_object_value ∷ st) (next n) tt,
    Completes-blank_end c xs (parse_object_key ∷ st),
    Completes-colon c st xs,
  )
  end_value_sound (parse_object_value ∷ []) n h = ground (
    arith,
    ih end_value (parse_object_value ∷ []) (next n) tt,
    ih begin_string (parse_object_key ∷ []) (next n) refl,
    ih end_top [] (next n) refl,
    Completes-blank_end c xs (parse_object_value ∷ []),
    Completes-next_member c [] xs,
    Completes-close_object c [] xs,
  )
  end_value_sound (parse_object_value ∷ p ∷ st) n h = ground (
    arith,
    ih end_value (parse_object_value ∷ p ∷ st) (next n) tt,
    ih begin_string (parse_object_key ∷ p ∷ st) (next n) refl,
    ih end_value (p ∷ st) (next n) tt,
    Completes-blank_end c xs (parse_object_value ∷ p ∷ st),
    Completes-next_member c (p ∷ st) xs,
    Completes-close_object c (p ∷ st) xs,
  )
  end_value_sound (parse_array_value ∷ []) n h = ground (
    arith,
    ih end_value (parse_array_value ∷ []) (next n) tt,
    ih begin_value (parse_array_value ∷ []) (next n) tt,
    ih end_top [] (next n) refl,
    Completes-blank_end c xs (parse_array_value ∷ []),
    Completes-next_element c [] xs,
    Completes-close_array c [] xs,
  )
  end_value_sound (parse_array_value ∷ p ∷ st) n h = ground (
    arith,
    ih end_value (parse_array_value ∷ p ∷ st) (next n) tt,
    ih begin_value (parse_array_value ∷ p ∷ st) (next n) tt,
    ih end_value (p ∷ st) (next n) tt,
    Completes-blank_end c xs (parse_array_value ∷ p ∷ st),
    Completes-next_element c (p ∷ st) xs,
    Completes-close_array c (p ∷ st) xs,
  )

  pub begin_value_sound :
      (st : Stack) (n : ℕ)
      → accepts (at begin_value st n) (c ∷ xs) ≡ true
      → Completes begin_value st (c ∷ xs)
  unfolding scan_all step_at
  begin_value_sound st n h = ground (
    arith,
    ih begin_value st (next n) tt,
    ih begin_string_or_empty (parse_object_key ∷ st) (next n) refl,
    ih begin_value_or_empty (parse_array_value ∷ st) (next n) refl,
    ih in_string st (next n) tt,
    ih after_neg st (next n) tt,
    ih after_0 st (next n) tt,
    ih after_1 st (next n) tt,
    ih after_t st (next n) tt,
    ih after_f st (next n) tt,
    ih after_n st (next n) tt,
    Completes-blank c st xs,
    Completes-object c st xs,
    Completes-array c st xs,
    Completes-string c st xs,
    Completes-negative c st xs,
    Completes-zero c st xs,
    Completes-digit19 c st xs,
    Completes-true c st xs,
    Completes-false c st xs,
    Completes-null c st xs,
  )

  pub begin_string_sound :
      (st : Stack) (n : ℕ)
      → accepts (at begin_string (parse_object_key ∷ st) n) (c ∷ xs) ≡ true
      → Completes begin_string (parse_object_key ∷ st) (c ∷ xs)
  unfolding scan_all step_at
  begin_string_sound st n h = ground (
    arith,
    ih begin_string (parse_object_key ∷ st) (next n) refl,
    ih in_string (parse_object_key ∷ st) (next n) tt,
    Completes-blank_key c st xs,
    Completes-key c st xs,
  )

  -- `]` at once, or a first element.
  pub closing_array :
      (st : Stack) (n : ℕ)
      → accepts (at end_value (parse_array_value ∷ st) n) (b']' ∷ xs) ≡ true
      → Completes (closed st) st xs
  unfolding scan_all step_at is_space
  closing_array [] n h = ih end_top [] (next n) refl h
  closing_array (p ∷ st) n h = ih end_value (p ∷ st) (next n) tt h

  pub closing_object :
      (st : Stack) (n : ℕ)
      → accepts (at end_value (parse_object_value ∷ st) n) (b'}' ∷ xs) ≡ true
      → Completes (closed st) st xs
  unfolding scan_all step_at is_space
  closing_object [] n h = ih end_top [] (next n) refl h
  closing_object (p ∷ st) n h = ih end_value (p ∷ st) (next n) tt h

  pub skipped_array :
      (st : Stack) (n : ℕ)
      → is_space c ≡ true
      → accepts (at begin_value_or_empty (parse_array_value ∷ st) n) (c ∷ xs) ≡ true
      → Completes begin_value_or_empty (parse_array_value ∷ st) xs
  unfolding scan_all step_at is_space
  skipped_array st n e h =
      ground (arith, ih begin_value_or_empty (parse_array_value ∷ st) (next n) refl)

  pub skipped_object :
      (st : Stack) (n : ℕ)
      → is_space c ≡ true
      → accepts (at begin_string_or_empty (parse_object_key ∷ st) n) (c ∷ xs) ≡ true
      → Completes begin_string_or_empty (parse_object_key ∷ st) xs
  unfolding scan_all step_at is_space
  skipped_object st n e h =
      ground (arith, ih begin_string_or_empty (parse_object_key ∷ st) (next n) refl)
