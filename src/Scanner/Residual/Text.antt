-- ===== src/Scanner/Residual/Text.antt =====
-- One byte more of a string, a number or a word: what the grammar wanted before it.
use rhine.Prelude.{[], ℕ, true, ◌∷◌, ◌≡◌, ◌≢◌, ◌≤◌, Bytes, codes}
use rhine.Scanner.State.{
  end_value, in_string, in_string_esc, in_string_esc_u, in_string_esc_u1, in_string_esc_u12,
  in_string_esc_u123, after_neg, after_1, after_0, after_dot, after_dot0, after_e, after_e_sign,
  after_e0, after_t, after_tr, after_tru, after_f, after_fa, after_fal, after_fals, after_n,
  after_nu, after_nul,
}
use rhine.Scanner.Step.{is_digit, is_digit19, is_hex, is_escape}
use rhine.Scanner.Config.{Stack}
use rhine.Scanner.Grammar.{
  Word, Chars, Escape, Hex, ExpDigits, ExpUnsigned, Exponent, ExpPart, FracDigits, Fraction,
  FracPart, IntDigits, Unsigned,
}
use rhine.Scanner.Residual.{After, Then, Completes}

Then-map :
    (G H : Bytes → Bytes → Type 0) (st : Stack) {xs ys : Bytes}
    → ((r : Bytes) → G xs r → H ys r)
    → Then G st xs
    → Then H st ys
Then-map G H st f (r, g, a) = (r, f r g, a)

module _ (c : ℕ) (st : Stack) (xs : Bytes) where
  pub Completes-quote : c ≡ b'"' → Completes end_value st xs → Completes in_string st (c ∷ xs)
  unfolding Completes
  Completes-quote e h = (xs, Chars.quote e, h)

  pub Completes-plain :
      c ≢ b'"' → c ≢ b'\\' → 0x20 ≤ c → Completes in_string st xs → Completes in_string st (c ∷ xs)
  unfolding Completes
  Completes-plain p q l = Then-map Chars Chars st (λ r. Chars.plain p q l)

  pub Completes-escape : c ≡ b'\\' → Completes in_string_esc st xs → Completes in_string st (c ∷ xs)
  unfolding Completes
  Completes-escape e = Then-map Escape Chars st (λ r. Chars.escape e)

  pub Completes-simple :
      is_escape c ≡ true → Completes in_string st xs → Completes in_string_esc st (c ∷ xs)
  unfolding Completes
  Completes-simple e = Then-map Chars Escape st (λ r. Escape.simple e)

  pub Completes-unicode :
      c ≡ b'u' → Completes in_string_esc_u st xs → Completes in_string_esc st (c ∷ xs)
  unfolding Completes
  Completes-unicode e = Then-map (Hex 4) Escape st (λ r. Escape.unicode e)

  pub Completes-hex4 :
      is_hex c ≡ true → Completes in_string_esc_u1 st xs → Completes in_string_esc_u st (c ∷ xs)
  unfolding Completes
  Completes-hex4 e = Then-map (Hex 3) (Hex 4) st (λ r. Hex.digit e)

  pub Completes-hex3 :
      is_hex c ≡ true → Completes in_string_esc_u12 st xs → Completes in_string_esc_u1 st (c ∷ xs)
  unfolding Completes
  Completes-hex3 e = Then-map (Hex 2) (Hex 3) st (λ r. Hex.digit e)

  pub Completes-hex2 :
      is_hex c ≡ true → Completes in_string_esc_u123 st xs → Completes in_string_esc_u12 st (c ∷ xs)
  unfolding Completes
  Completes-hex2 e = Then-map (Hex 1) (Hex 2) st (λ r. Hex.digit e)

  pub Completes-hex1 :
      is_hex c ≡ true → Completes in_string st xs → Completes in_string_esc_u123 st (c ∷ xs)
  unfolding Completes
  Completes-hex1 e = Then-map Chars (Hex 1) st (λ r g. Hex.digit e (Hex.enough g))

module _ (c : ℕ) (st : Stack) (xs : Bytes) where
  pub Completes-neg_0 : c ≡ b'0' → Completes after_0 st xs → Completes after_neg st (c ∷ xs)
  unfolding Completes
  Completes-neg_0 e = Then-map FracPart Unsigned st (λ r. Unsigned.leading_0 e)

  pub Completes-neg_1 :
      is_digit19 c ≡ true → Completes after_1 st xs → Completes after_neg st (c ∷ xs)
  unfolding Completes
  Completes-neg_1 e = Then-map IntDigits Unsigned st (λ r. Unsigned.leading_1 e)

  pub Completes-int_digit :
      is_digit c ≡ true → Completes after_1 st xs → Completes after_1 st (c ∷ xs)
  unfolding Completes
  Completes-int_digit e = Then-map IntDigits IntDigits st (λ r. IntDigits.digit e)

  pub Completes-dot : c ≡ b'.' → Completes after_dot st xs → Completes after_0 st (c ∷ xs)
  unfolding Completes
  Completes-dot e = Then-map Fraction FracPart st (λ r. FracPart.dot e)

  pub Completes-first_frac :
      is_digit c ≡ true → Completes after_dot0 st xs → Completes after_dot st (c ∷ xs)
  unfolding Completes
  Completes-first_frac e = Then-map FracDigits Fraction st (λ r. Fraction.digit e)

  pub Completes-frac_digit :
      is_digit c ≡ true → Completes after_dot0 st xs → Completes after_dot0 st (c ∷ xs)
  unfolding Completes
  Completes-frac_digit e = Then-map FracDigits FracDigits st (λ r. FracDigits.digit e)

  pub Completes-e : c ≡ b'e' → Completes after_e st xs → Completes after_dot0 st (c ∷ xs)
  unfolding Completes
  Completes-e e = Then-map Exponent FracDigits st (λ r g. FracDigits.exponent (ExpPart.lower e g))

  pub Completes-E : c ≡ b'E' → Completes after_e st xs → Completes after_dot0 st (c ∷ xs)
  unfolding Completes
  Completes-E e = Then-map Exponent FracDigits st (λ r g. FracDigits.exponent (ExpPart.upper e g))

  pub Completes-e0 : c ≡ b'e' → Completes after_e st xs → Completes after_0 st (c ∷ xs)
  unfolding Completes
  Completes-e0 e = Then-map Exponent FracPart st (λ r g. FracPart.exponent (ExpPart.lower e g))

  pub Completes-E0 : c ≡ b'E' → Completes after_e st xs → Completes after_0 st (c ∷ xs)
  unfolding Completes
  Completes-E0 e = Then-map Exponent FracPart st (λ r g. FracPart.exponent (ExpPart.upper e g))

  pub Completes-plus : c ≡ b'+' → Completes after_e_sign st xs → Completes after_e st (c ∷ xs)
  unfolding Completes
  Completes-plus e = Then-map ExpUnsigned Exponent st (λ r. Exponent.plus e)

  pub Completes-minus : c ≡ b'-' → Completes after_e_sign st xs → Completes after_e st (c ∷ xs)
  unfolding Completes
  Completes-minus e = Then-map ExpUnsigned Exponent st (λ r. Exponent.minus e)

  pub Completes-first_exp :
      is_digit c ≡ true → Completes after_e0 st xs → Completes after_e_sign st (c ∷ xs)
  unfolding Completes
  Completes-first_exp e = Then-map ExpDigits ExpUnsigned st (λ r. ExpUnsigned.digit e)

  pub Completes-exp_digit :
      is_digit c ≡ true → Completes after_e0 st xs → Completes after_e0 st (c ∷ xs)
  unfolding Completes
  Completes-exp_digit e = Then-map ExpDigits ExpDigits st (λ r. ExpDigits.digit e)

-- Where no byte is needed.
module _ (st : Stack) (xs : Bytes) where
  pub Completes-unsigned : Completes after_e_sign st xs → Completes after_e st xs
  unfolding Completes
  Completes-unsigned = Then-map ExpUnsigned Exponent st (λ r. Exponent.unsigned)

  pub Completes-integer : Completes after_0 st xs → Completes after_1 st xs
  unfolding Completes
  Completes-integer = Then-map FracPart IntDigits st (λ r. IntDigits.fraction)

  pub Completes-end_0 : Completes end_value st xs → Completes after_0 st xs
  unfolding Completes
  Completes-end_0 h = (xs, FracPart.exponent ExpPart.stop, h)

  pub Completes-end_dot0 : Completes end_value st xs → Completes after_dot0 st xs
  unfolding Completes
  Completes-end_dot0 h = (xs, FracDigits.exponent ExpPart.stop, h)

  pub Completes-end_e0 : Completes end_value st xs → Completes after_e0 st xs
  unfolding Completes
  Completes-end_e0 h = (xs, ExpDigits.stop, h)

-- The letters of the three words.
Then-letter :
    (d : ℕ) (w : Bytes) (c : ℕ) (st : Stack) (xs : Bytes)
    → c ≡ d
    → Then (Word w) st xs
    → Then (Word (d ∷ w)) st (c ∷ xs)
Then-letter d w c st xs e = Then-map (Word w) (Word (d ∷ w)) st (λ r. Word.letter e)

Then-last_letter :
    (d c : ℕ) (st : Stack) (xs : Bytes) → c ≡ d → After st xs → Then (Word (d ∷ [])) st (c ∷ xs)
Then-last_letter d c st xs e h = (xs, Word.letter e Word.spelled, h)

module _ (c : ℕ) (st : Stack) (xs : Bytes) where
  pub Completes-t : c ≡ b'r' → Completes after_tr st xs → Completes after_t st (c ∷ xs)
  unfolding Completes
  Completes-t = Then-letter b'r' (codes "ue") c st xs

  pub Completes-tr : c ≡ b'u' → Completes after_tru st xs → Completes after_tr st (c ∷ xs)
  unfolding Completes
  Completes-tr = Then-letter b'u' (codes "e") c st xs

  pub Completes-tru : c ≡ b'e' → Completes end_value st xs → Completes after_tru st (c ∷ xs)
  unfolding Completes
  Completes-tru = Then-last_letter b'e' c st xs

  pub Completes-f : c ≡ b'a' → Completes after_fa st xs → Completes after_f st (c ∷ xs)
  unfolding Completes
  Completes-f = Then-letter b'a' (codes "lse") c st xs

  pub Completes-fa : c ≡ b'l' → Completes after_fal st xs → Completes after_fa st (c ∷ xs)
  unfolding Completes
  Completes-fa = Then-letter b'l' (codes "se") c st xs

  pub Completes-fal : c ≡ b's' → Completes after_fals st xs → Completes after_fal st (c ∷ xs)
  unfolding Completes
  Completes-fal = Then-letter b's' (codes "e") c st xs

  pub Completes-fals : c ≡ b'e' → Completes end_value st xs → Completes after_fals st (c ∷ xs)
  unfolding Completes
  Completes-fals = Then-last_letter b'e' c st xs

  pub Completes-n : c ≡ b'u' → Completes after_nu st xs → Completes after_n st (c ∷ xs)
  unfolding Completes
  Completes-n = Then-letter b'u' (codes "ll") c st xs

  pub Completes-nu : c ≡ b'l' → Completes after_nul st xs → Completes after_nu st (c ∷ xs)
  unfolding Completes
  Completes-nu = Then-letter b'l' (codes "l") c st xs

  pub Completes-nul : c ≡ b'l' → Completes end_value st xs → Completes after_nul st (c ∷ xs)
  unfolding Completes
  Completes-nul = Then-last_letter b'l' c st xs
