-- ===== src/Scanner/Carry/Opens.antt =====
-- The steps at the first byte of a value, at white space and at delimiters, one equation each.
use rhine.Scanner.Carry.Moves.{Moves}
use rhine.Scanner.Step.{step_at, is_digit19}
use rhine.Scanner.Config.{Stack, closed}
use rhine.Scanner.State.{
  scan_array_value, scan_object_value, scan_object_key, scan_begin_array, scan_begin_object,
  scan_end_object, scan_end_array, parse_object_key, parse_array_value, parse_object_value,
  scan_begin_literal, scan_end, in_string, begin_value, begin_string, end_value, scan_skip_space,
  after_t, begin_value_or_empty, begin_string_or_empty, end_top, after_1, after_n, after_0,
  after_neg, after_f, State, is_space, ParseState,
}
use rhine.Prelude.{ℕ, [], ◌∷◌, ◌≡◌, true, refl, arith}

-- Where a value is expected; behind `[` also its end.
pub data StartsValue : State → Type 0 where
  for_value : StartsValue begin_value
  for_element : StartsValue begin_value_or_empty

-- Where a key is expected; behind `{` also its end.
pub data StartsKey : State → Type 0 where
  for_key : StartsKey begin_string
  for_first_key : StartsKey begin_string_or_empty

module _ (st : Stack) (c : ℕ) where
  pub Moves-object :
      {k : State}
      → StartsValue k
      → c ≡ b'{'
      → Moves k st c begin_string_or_empty (parse_object_key ∷ st) scan_begin_object
  unfolding step_at is_space
  Moves-object for_value e n = ground arith
  Moves-object for_element e n = ground arith

  pub Moves-array :
      {k : State}
      → StartsValue k
      → c ≡ b'['
      → Moves k st c begin_value_or_empty (parse_array_value ∷ st) scan_begin_array
  unfolding step_at is_space
  Moves-array for_value e n = ground arith
  Moves-array for_element e n = ground arith

  pub Moves-string :
      {k : State} → StartsValue k → c ≡ b'"' → Moves k st c in_string st scan_begin_literal
  unfolding step_at is_space
  Moves-string for_value e n = ground arith
  Moves-string for_element e n = ground arith

  pub Moves-negative :
      {k : State} → StartsValue k → c ≡ b'-' → Moves k st c after_neg st scan_begin_literal
  unfolding step_at is_space
  Moves-negative for_value e n = ground arith
  Moves-negative for_element e n = ground arith

  pub Moves-zero :
      {k : State} → StartsValue k → c ≡ b'0' → Moves k st c after_0 st scan_begin_literal
  unfolding step_at is_space
  Moves-zero for_value e n = ground arith
  Moves-zero for_element e n = ground arith

  pub Moves-digit :
      {k : State} → StartsValue k → is_digit19 c ≡ true → Moves k st c after_1 st scan_begin_literal
  unfolding step_at is_space is_digit19
  Moves-digit for_value e n = ground arith
  Moves-digit for_element e n = ground arith

  pub Moves-true :
      {k : State} → StartsValue k → c ≡ b't' → Moves k st c after_t st scan_begin_literal
  unfolding step_at is_space
  Moves-true for_value e n = ground arith
  Moves-true for_element e n = ground arith

  pub Moves-false :
      {k : State} → StartsValue k → c ≡ b'f' → Moves k st c after_f st scan_begin_literal
  unfolding step_at is_space
  Moves-false for_value e n = ground arith
  Moves-false for_element e n = ground arith

  pub Moves-null :
      {k : State} → StartsValue k → c ≡ b'n' → Moves k st c after_n st scan_begin_literal
  unfolding step_at is_space
  Moves-null for_value e n = ground arith
  Moves-null for_element e n = ground arith

  pub Moves-key :
      {k : State} → StartsKey k → c ≡ b'"' → Moves k st c in_string st scan_begin_literal
  unfolding step_at is_space
  Moves-key for_key e n = ground arith
  Moves-key for_first_key e n = ground arith

  -- White space keeps the state.
  pub Moves-blank_value :
      {k : State} → StartsValue k → is_space c ≡ true → Moves k st c k st scan_skip_space
  unfolding step_at is_space
  Moves-blank_value for_value e n = ground arith
  Moves-blank_value for_element e n = ground arith

  pub Moves-blank_key :
      {k : State} → StartsKey k → is_space c ≡ true → Moves k st c k st scan_skip_space
  unfolding step_at is_space
  Moves-blank_key for_key e n = ground arith
  Moves-blank_key for_first_key e n = ground arith

pub Moves-blank_end :
    (p : ParseState) (st : Stack) (c : ℕ)
    → is_space c ≡ true
    → Moves end_value (p ∷ st) c end_value (p ∷ st) scan_skip_space
unfolding step_at is_space
Moves-blank_end p st c e n = ground arith

pub Moves-blank_top : (c : ℕ) → is_space c ≡ true → Moves end_top [] c end_top [] scan_end
unfolding step_at
Moves-blank_top c e n = ground arith

pub Moves-blank_last : (c : ℕ) → is_space c ≡ true → Moves end_value [] c end_top [] scan_end
unfolding step_at
Moves-blank_last c e n = ground arith

-- The delimiters, each in the state and under the parse state where it is read.
module _ (st : Stack) where
  pub Moves-colon :
      Moves end_value
        (parse_object_key ∷ st)
        b':'
        begin_value
        (parse_object_value ∷ st)
        scan_object_key
  unfolding step_at is_space
  Moves-colon n = refl

  pub Moves-next_member :
      Moves end_value
        (parse_object_value ∷ st)
        b','
        begin_string
        (parse_object_key ∷ st)
        scan_object_value
  unfolding step_at is_space
  Moves-next_member n = refl

  pub Moves-next_element :
      Moves end_value
        (parse_array_value ∷ st)
        b','
        begin_value
        (parse_array_value ∷ st)
        scan_array_value
  unfolding step_at is_space
  Moves-next_element n = refl

pub Moves-close_object :
    (st : Stack) → Moves end_value (parse_object_value ∷ st) b'}' (closed st) st scan_end_object
unfolding step_at is_space
Moves-close_object [] n = refl
Moves-close_object (_ ∷ _) n = refl

pub Moves-close_array :
    (st : Stack) → Moves end_value (parse_array_value ∷ st) b']' (closed st) st scan_end_array
unfolding step_at is_space
Moves-close_array [] n = refl
Moves-close_array (_ ∷ _) n = refl

pub Moves-empty_object :
    (st : Stack)
    → Moves begin_string_or_empty (parse_object_key ∷ st) b'}' (closed st) st scan_end_object
unfolding step_at is_space
Moves-empty_object [] n = refl
Moves-empty_object (_ ∷ _) n = refl

pub Moves-empty_array :
    (st : Stack)
    → Moves begin_value_or_empty (parse_array_value ∷ st) b']' (closed st) st scan_end_array
unfolding step_at is_space
Moves-empty_array [] n = refl
Moves-empty_array (_ ∷ _) n = refl
