-- ===== src/Scanner/Step.antt =====
-- The step functions of the scanner, in the order that their calls need.
use Prim.Native.String.{String}
use rhine.Prelude.{true, ℕ, Bool, ◌&&◌, ◌||◌, List, [], ◌∷◌, leb, ltb, ◌==◌, if◌then◌else◌}
use rhine.Scanner.State.{
  Opcode, scan_continue, scan_begin_literal, scan_begin_object, scan_object_key, scan_object_value,
  scan_end_object, scan_begin_array, scan_array_value, scan_end_array, scan_skip_space, scan_end,
  scan_error, ParseState, parse_object_key, parse_object_value, parse_array_value, State,
  begin_value_or_empty, begin_value, begin_string_or_empty, begin_string, end_value, end_top,
  in_string, in_string_esc, in_string_esc_u, in_string_esc_u1, in_string_esc_u12,
  in_string_esc_u123, after_neg, after_1, after_0, after_dot, after_dot0, after_e, after_e_sign,
  after_e0, after_t, after_tr, after_tru, after_f, after_fa, after_fal, after_fals, after_n,
  after_nu, after_nul, after_error, Scanner, Outcome, ret, panic, push_parse_state, with_top,
  pop_parse_state, fail, is_space,
}

-- `c <= ' ' && isSpace(c)`, the test of several states.
abbrev skips : ℕ → Bool
skips c = leb c b' ' && is_space c

-- '0' <= c && c <= '9', and from '1'.
unfoldable pub is_digit : ℕ → Bool
is_digit c = leb b'0' c && leb c b'9'

unfoldable pub is_digit19 : ℕ → Bool
is_digit19 c = leb b'1' c && leb c b'9'

unfoldable pub is_hex : ℕ → Bool
is_hex c = leb b'0' c && leb c b'9' || leb b'a' c && leb c b'f' || leb b'A' c && leb c b'F'

-- The bytes that may follow a backslash, but for `u`.
unfoldable pub is_escape : ℕ → Bool
is_escape c =
    c == b'b'
    || c == b'f'
    || c == b'n'
    || c == b'r'
    || c == b't'
    || c == b'\\'
    || c == b'/'
    || c == b'"'

-- `s.step = next; return op`.
abbrev goto : Scanner → State → Opcode → Outcome
goto s next op = ret (record s { step = next }) op

-- The error is recorded, and told on the next call.
state_end_top : Scanner → ℕ → Outcome
state_end_top s c =
    if is_space c
    then ret s scan_end
    else elim (fail s c "after top-level value") [ ret s' _ ↦ ret s' scan_end | panic ↦ panic ]

-- The `switch` on the innermost parse state.
end_value_in : ParseState → Scanner → ℕ → Outcome
end_value_in parse_object_key s c =
    if c == b':'
    then with_top parse_object_value s s.parse_state (λ s'. goto s' begin_value scan_object_key)
    else fail s c "after object key"
end_value_in parse_object_value s c =
    if c == b','
    then with_top parse_object_key s s.parse_state (λ s'. goto s' begin_string scan_object_value)
    else if c == b'}'
    then pop_parse_state s s.parse_state scan_end_object
    else fail s c "after object key:value pair"
end_value_in parse_array_value s c =
    if c == b','
    then goto s begin_value scan_array_value
    else if c == b']'
    then pop_parse_state s s.parse_state scan_end_array
    else fail s c "after array element"

-- `stateEndValue`, by the slice of parse states.
end_value_at : List ParseState → Scanner → ℕ → Outcome
unfolding state_end_top end_value_in
end_value_at [] s c = state_end_top (record s { step = end_top; end_top = true }) c
end_value_at (p ∷ _) s c = if skips c then goto s end_value scan_skip_space else end_value_in p s c

state_end_value : Scanner → ℕ → Outcome
unfolding end_value_at
state_end_value s c = end_value_at s.parse_state s c

state_begin_value : Scanner → ℕ → Outcome
state_begin_value s c =
    if skips c
    then ret s scan_skip_space
    else if c == b'{'
    then goto (push_parse_state s parse_object_key) begin_string_or_empty scan_begin_object
    else if c == b'['
    then goto (push_parse_state s parse_array_value) begin_value_or_empty scan_begin_array
    else if c == b'"'
    then goto s in_string scan_begin_literal
    else if c == b'-'
    then goto s after_neg scan_begin_literal
    else if c == b'0'
    then goto s after_0 scan_begin_literal
    else if c == b't'
    then goto s after_t scan_begin_literal
    else if c == b'f'
    then goto s after_f scan_begin_literal
    else if c == b'n'
    then goto s after_n scan_begin_literal
    else if is_digit19 c
    then goto s after_1 scan_begin_literal
    else fail s c "looking for beginning of value"

state_begin_value_or_empty : Scanner → ℕ → Outcome
state_begin_value_or_empty s c =
    if skips c
    then ret s scan_skip_space
    else if c == b']'
    then state_end_value s c
    else state_begin_value s c

state_begin_string : Scanner → ℕ → Outcome
state_begin_string s c =
    if skips c
    then ret s scan_skip_space
    else if c == b'"'
    then goto s in_string scan_begin_literal
    else fail s c "looking for beginning of object key string"

state_begin_string_or_empty : Scanner → ℕ → Outcome
state_begin_string_or_empty s c =
    if skips c
    then ret s scan_skip_space
    else if c == b'}'
    then with_top parse_object_value s s.parse_state (λ s'. state_end_value s' c)
    else state_begin_string s c

state_in_string : Scanner → ℕ → Outcome
state_in_string s c =
    if c == b'"'
    then goto s end_value scan_continue
    else if c == b'\\'
    then goto s in_string_esc scan_continue
    else if ltb c 0x20
    then fail s c "in string literal"
    else ret s scan_continue

state_in_string_esc : Scanner → ℕ → Outcome
state_in_string_esc s c =
    if is_escape c
    then goto s in_string scan_continue
    else if c == b'u'
    then goto s in_string_esc_u scan_continue
    else fail s c "in string escape code"

-- The four states of `\uXXXX`, which differ in the state that follows.
hex_then : State → Scanner → ℕ → Outcome
hex_then next s c =
    if is_hex c then goto s next scan_continue else fail s c "in \\u hexadecimal character escape"

state_neg : Scanner → ℕ → Outcome
state_neg s c =
    if c == b'0'
    then goto s after_0 scan_continue
    else if is_digit19 c
    then goto s after_1 scan_continue
    else fail s c "in numeric literal"

state_0 : Scanner → ℕ → Outcome
state_0 s c =
    if c == b'.'
    then goto s after_dot scan_continue
    else if c == b'e' || c == b'E'
    then goto s after_e scan_continue
    else state_end_value s c

state_1 : Scanner → ℕ → Outcome
state_1 s c = if is_digit c then goto s after_1 scan_continue else state_0 s c

state_dot : Scanner → ℕ → Outcome
state_dot s c =
    if is_digit c
    then goto s after_dot0 scan_continue
    else fail s c "after decimal point in numeric literal"

state_dot0 : Scanner → ℕ → Outcome
state_dot0 s c =
    if is_digit c
    then ret s scan_continue
    else if c == b'e' || c == b'E'
    then goto s after_e scan_continue
    else state_end_value s c

state_e_sign : Scanner → ℕ → Outcome
state_e_sign s c =
    if is_digit c then goto s after_e0 scan_continue else fail s c "in exponent of numeric literal"

state_e : Scanner → ℕ → Outcome
state_e s c = if c == b'+' || c == b'-' then goto s after_e_sign scan_continue else state_e_sign s c

state_e0 : Scanner → ℕ → Outcome
state_e0 s c = if is_digit c then ret s scan_continue else state_end_value s c

-- One expected byte of a literal.
expect_byte : ℕ → State → String → Scanner → ℕ → Outcome
expect_byte want next context s c =
    if c == want then goto s next scan_continue else fail s c context

state_in_string_esc_u : Scanner → ℕ → Outcome
unfolding hex_then
state_in_string_esc_u = hex_then in_string_esc_u1

state_in_string_esc_u1 : Scanner → ℕ → Outcome
unfolding hex_then
state_in_string_esc_u1 = hex_then in_string_esc_u12

state_in_string_esc_u12 : Scanner → ℕ → Outcome
unfolding hex_then
state_in_string_esc_u12 = hex_then in_string_esc_u123

state_in_string_esc_u123 : Scanner → ℕ → Outcome
unfolding hex_then
state_in_string_esc_u123 = hex_then in_string

state_t : Scanner → ℕ → Outcome
unfolding expect_byte
state_t = expect_byte b'r' after_tr "in literal true (expecting 'r')"

state_tr : Scanner → ℕ → Outcome
unfolding expect_byte
state_tr = expect_byte b'u' after_tru "in literal true (expecting 'u')"

state_tru : Scanner → ℕ → Outcome
unfolding expect_byte
state_tru = expect_byte b'e' end_value "in literal true (expecting 'e')"

state_f : Scanner → ℕ → Outcome
unfolding expect_byte
state_f = expect_byte b'a' after_fa "in literal false (expecting 'a')"

state_fa : Scanner → ℕ → Outcome
unfolding expect_byte
state_fa = expect_byte b'l' after_fal "in literal false (expecting 'l')"

state_fal : Scanner → ℕ → Outcome
unfolding expect_byte
state_fal = expect_byte b's' after_fals "in literal false (expecting 's')"

state_fals : Scanner → ℕ → Outcome
unfolding expect_byte
state_fals = expect_byte b'e' end_value "in literal false (expecting 'e')"

state_n : Scanner → ℕ → Outcome
unfolding expect_byte
state_n = expect_byte b'u' after_nu "in literal null (expecting 'u')"

state_nu : Scanner → ℕ → Outcome
unfolding expect_byte
state_nu = expect_byte b'l' after_nul "in literal null (expecting 'l')"

state_nul : Scanner → ℕ → Outcome
unfolding expect_byte
state_nul = expect_byte b'l' end_value "in literal null (expecting 'l')"

-- The call of `s.step`. `after_error` is `stateError`.
unfoldable pub step_at : State → Scanner → ℕ → Outcome
unfolding state_begin_value_or_empty state_begin_value state_begin_string_or_empty
    state_begin_string state_end_value state_end_top state_in_string state_in_string_esc
    state_in_string_esc_u state_in_string_esc_u1 state_in_string_esc_u12 state_in_string_esc_u123
    state_neg state_1 state_0 state_dot state_dot0 state_e state_e_sign state_e0 state_t state_tr
    state_tru state_f state_fa state_fal state_fals state_n state_nu state_nul
step_at begin_value_or_empty = state_begin_value_or_empty
step_at begin_value = state_begin_value
step_at begin_string_or_empty = state_begin_string_or_empty
step_at begin_string = state_begin_string
step_at end_value = state_end_value
step_at end_top = state_end_top
step_at in_string = state_in_string
step_at in_string_esc = state_in_string_esc
step_at in_string_esc_u = state_in_string_esc_u
step_at in_string_esc_u1 = state_in_string_esc_u1
step_at in_string_esc_u12 = state_in_string_esc_u12
step_at in_string_esc_u123 = state_in_string_esc_u123
step_at after_neg = state_neg
step_at after_1 = state_1
step_at after_0 = state_0
step_at after_dot = state_dot
step_at after_dot0 = state_dot0
step_at after_e = state_e
step_at after_e_sign = state_e_sign
step_at after_e0 = state_e0
step_at after_t = state_t
step_at after_tr = state_tr
step_at after_tru = state_tru
step_at after_f = state_f
step_at after_fa = state_fa
step_at after_fal = state_fal
step_at after_fals = state_fals
step_at after_n = state_n
step_at after_nu = state_nu
step_at after_nul = state_nul
step_at after_error = λ s c. ret s scan_error

abbrev pub scan_step : Scanner → ℕ → Outcome
scan_step s c = step_at s.step s c
