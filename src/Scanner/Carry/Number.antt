-- ===== src/Scanner/Carry/Number.antt =====
-- Numbers, carried through the scanner.
use rhine.Scanner.Carry.Moves.{
  carries_on, Carries, Moves-exp_digit, Moves-first_exp, Moves-exp_unsigned, Moves-sign,
  Moves-frac_digit, Moves-first_frac, Moves-int_digit, Moves-e, Moves-dot, Moves-leading_0,
  Moves-leading_1,
}
use rhine.Scanner.Step.{is_digit}
use rhine.Scanner.Config.{Stack, closed}
use rhine.Scanner.State.{
  after_e_sign, after_neg, after_e0, after_1, after_e, after_0, after_dot0, after_dot, State,
}
use rhine.Scanner.Delegate.{EndsValue, at_0, at_1, at_dot0, at_e0, goes_on}
use rhine.Scanner.Grammar.{
  ExpPart, FracPart, ExpDigits, Exponent, FracDigits, IntDigits, Fraction, ExpUnsigned, Unsigned,
}
use rhine.Prelude.{◌≡◌, Bytes, true, refl, inl, inr}

-- What has to hold behind a value: in a state that ends it, or where the end of a composite value
-- leaves the scanner.
pub record Goes (A : State → Stack → Bytes → Type 0) (st : Stack) (xs : Bytes) : Type 0 where
  pub ended : (k : State) → EndsValue k → A k st xs
  pub shut : A (closed st) st xs

module _ (A : State → Stack → Bytes → Type 0) (carries : Carries A) {r : Bytes} (st : Stack)
    (h : Goes A st r) where
  carries-ExpDigits : {xs : Bytes} → ExpDigits xs r → A after_e0 st xs
  carries-ExpDigits ExpDigits.stop = h.ended after_e0 at_e0
  carries-ExpDigits (ExpDigits.digit {c} {xs} e g) =
      carries_on A carries after_e0 after_e0 st c xs (Moves-exp_digit st c e) (carries-ExpDigits g)

  carries-ExpUnsigned : {xs : Bytes} → ExpUnsigned xs r → A after_e_sign st xs
  carries-ExpUnsigned (ExpUnsigned.digit {c} {xs} e g) =
      carries_on A carries after_e_sign after_e0 st c xs (Moves-first_exp st c e)
        (carries-ExpDigits g)

  carries-Exponent : {xs : Bytes} → Exponent xs r → A after_e st xs
  carries-Exponent (Exponent.unsigned (ExpUnsigned.digit {c} {xs} e g)) =
      carries_on A carries after_e after_e0 st c xs (Moves-exp_unsigned st c e)
        (carries-ExpDigits g)
  carries-Exponent (Exponent.plus {c} {xs} e g) =
      carries_on A carries after_e after_e_sign st c xs (Moves-sign st c (inl e))
        (carries-ExpUnsigned g)
  carries-Exponent (Exponent.minus {c} {xs} e g) =
      carries_on A carries after_e after_e_sign st c xs (Moves-sign st c (inr e))
        (carries-ExpUnsigned g)

  carries-ExpPart :
      {k : State} {xs : Bytes} → EndsValue k → goes_on k b'e' ≡ true → ExpPart xs r → A k st xs
  carries-ExpPart {k} v t ExpPart.stop = h.ended k v
  carries-ExpPart {k} v t (ExpPart.lower {c} {xs} e g) =
      carries_on A carries k after_e st c xs (Moves-e st c v (inl e) t) (carries-Exponent g)
  carries-ExpPart {k} v t (ExpPart.upper {c} {xs} e g) =
      carries_on A carries k after_e st c xs (Moves-e st c v (inr e) t) (carries-Exponent g)

  carries-FracDigits : {xs : Bytes} → FracDigits xs r → A after_dot0 st xs
  unfolding is_digit
  carries-FracDigits (FracDigits.exponent g) = carries-ExpPart at_dot0 refl g
  carries-FracDigits (FracDigits.digit {c} {xs} e g) =
      carries_on A carries after_dot0 after_dot0 st c xs (Moves-frac_digit st c e)
        (carries-FracDigits g)

  carries-FracPart :
      {k : State} {xs : Bytes}
      → EndsValue k
      → goes_on k b'e' ≡ true
      → goes_on k b'.' ≡ true
      → FracPart xs r
      → A k st xs
  carries-FracPart v t u (FracPart.exponent g) = carries-ExpPart v t g
  carries-FracPart {k} v t u (FracPart.dot {c} {xs} e (Fraction.digit {c = c'} {xs = ys} f g)) =
      carries_on A carries k after_dot st c xs (Moves-dot st c v e u) (
        carries_on A carries after_dot after_dot0 st c' ys (Moves-first_frac st c' f)
          (carries-FracDigits g))

  carries-IntDigits : {xs : Bytes} → IntDigits xs r → A after_1 st xs
  unfolding is_digit
  carries-IntDigits (IntDigits.fraction g) = carries-FracPart at_1 refl refl g
  carries-IntDigits (IntDigits.digit {c} {xs} e g) =
      carries_on A carries after_1 after_1 st c xs (Moves-int_digit st c e) (carries-IntDigits g)

  -- What follows a first digit 0, and any other.
  pub carries-zero : {xs : Bytes} → FracPart xs r → A after_0 st xs
  unfolding is_digit
  carries-zero g = carries-FracPart at_0 refl refl g

  pub carries-digits : {xs : Bytes} → IntDigits xs r → A after_1 st xs
  carries-digits g = carries-IntDigits g

  pub carries-Unsigned : {xs : Bytes} → Unsigned xs r → A after_neg st xs
  carries-Unsigned (Unsigned.leading_0 {c} {xs} e g) =
      carries_on A carries after_neg after_0 st c xs (Moves-leading_0 st c e) (carries-zero g)
  carries-Unsigned (Unsigned.leading_1 {c} {xs} e g) =
      carries_on A carries after_neg after_1 st c xs (Moves-leading_1 st c e) (carries-digits g)
