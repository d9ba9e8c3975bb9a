-- ===== src/Scanner/Residual.antt =====
-- What the grammar still wants, for each step function and stack of parse states.
pub mod Text
pub mod Composite
use rhine.Prelude.{Bytes, [], ◌∷◌, codes}
use rhine.Scanner.State.{
  parse_object_key, parse_object_value, parse_array_value, State, begin_value_or_empty, begin_value,
  begin_string_or_empty, begin_string, end_value, end_top, in_string, in_string_esc,
  in_string_esc_u, in_string_esc_u1, in_string_esc_u12, in_string_esc_u123, after_neg, after_1,
  after_0, after_dot, after_dot0, after_e, after_e_sign, after_e0, after_t, after_tr, after_tru,
  after_f, after_fa, after_fal, after_fals, after_n, after_nu, after_nul, after_error,
}
use rhine.Scanner.Config.{Stack}
use rhine.Scanner.Grammar.{
  Spaces, Word, Chars, Escape, Hex, ExpDigits, ExpUnsigned, Exponent, FracDigits, Fraction,
  FracPart, IntDigits, Unsigned, Value, ArrayBody, ArrayTail, ObjectBody, Members, MemberValue,
  ObjectTail,
}

-- What stands behind the value, or the key, that the scanner is in.
abbrev pub After : Stack → Bytes → Type 0
After [] xs = Spaces xs
After (parse_object_key ∷ st) xs = (r : Bytes) × MemberValue xs r × After st r
After (parse_object_value ∷ st) xs = (r : Bytes) × ObjectTail xs r × After st r
After (parse_array_value ∷ st) xs = (r : Bytes) × ArrayTail xs r × After st r

abbrev pub Then : (Bytes → Bytes → Type 0) → Stack → Bytes → Type 0
Then G st xs = (r : Bytes) × G xs r × After st r

-- With a container's parse state already on the stack.
abbrev pub Inside : (Bytes → Bytes → Type 0) → Stack → Bytes → Type 0
Inside G [] xs = ⊥
Inside G (_ ∷ st) xs = Then G st xs

unfoldable pub Completes : State → Stack → Bytes → Type 0
Completes begin_value_or_empty = Inside ArrayBody
Completes begin_value = Then Value
Completes begin_string_or_empty = Inside ObjectBody
Completes begin_string = Inside Members
Completes end_value = After
Completes end_top = λ st xs. Spaces xs
Completes in_string = Then Chars
Completes in_string_esc = Then Escape
Completes in_string_esc_u = Then (Hex 4)
Completes in_string_esc_u1 = Then (Hex 3)
Completes in_string_esc_u12 = Then (Hex 2)
Completes in_string_esc_u123 = Then (Hex 1)
Completes after_neg = Then Unsigned
Completes after_1 = Then IntDigits
Completes after_0 = Then FracPart
Completes after_dot = Then Fraction
Completes after_dot0 = Then FracDigits
Completes after_e = Then Exponent
Completes after_e_sign = Then ExpUnsigned
Completes after_e0 = Then ExpDigits
Completes after_t = Then (Word (codes "rue"))
Completes after_tr = Then (Word (codes "ue"))
Completes after_tru = Then (Word (codes "e"))
Completes after_f = Then (Word (codes "alse"))
Completes after_fa = Then (Word (codes "lse"))
Completes after_fal = Then (Word (codes "se"))
Completes after_fals = Then (Word (codes "e"))
Completes after_n = Then (Word (codes "ull"))
Completes after_nu = Then (Word (codes "ll"))
Completes after_nul = Then (Word (codes "l"))
Completes after_error = λ st xs. ⊥
