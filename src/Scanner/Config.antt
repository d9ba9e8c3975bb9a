-- ===== src/Scanner/Config.antt =====
-- The scanners that a run without an error goes through: by step function, parse states and byte
-- count.
use rhine.Prelude.{ℕ, ◌+◌, ◌%◌, ◌^◌, Bool, true, false, List, [], ◌∷◌, none, ◌≡◌}
use rhine.Scanner.State.{
  ParseState, parse_object_key, parse_array_value, State, begin_value_or_empty,
  begin_string_or_empty, begin_string, end_value, end_top, after_error, Scanner,
}

abbrev pub Stack : Type 0
Stack = List ParseState

abbrev pub is_top : State → Bool
is_top end_top = true
is_top _ = false

abbrev pub at : State → Stack → ℕ → Scanner
at k st n = record { step = k; end_top = is_top k; parse_state = st; err = none; bytes = n }

-- The count behind one more byte.
abbrev pub next : ℕ → ℕ
next n = (n + 1) % 2 ^ 64

abbrev pub HasTop : ParseState → Stack → Type 0
HasTop p [] = ⊥
HasTop p (q ∷ _) = q ≡ p

-- The parse states that a step function is called with.
abbrev pub Fits : State → Stack → Type 0
Fits begin_value_or_empty st = HasTop parse_array_value st
Fits begin_string_or_empty st = HasTop parse_object_key st
Fits begin_string st = HasTop parse_object_key st
Fits end_top st = st ≡ []
Fits after_error st = ⊥
Fits _ st = Unit

-- Where the scanner is when a composite value ends.
abbrev pub closed : Stack → State
closed [] = end_top
closed (_ ∷ _) = end_value
