-- ===== src/Scanner/State.antt =====
-- The data of the scanner (proxy/gamestate/scanner.go): opcodes, parse states, the step functions
-- by name, the scanner's fields, and the small methods that write them.
use Prim.Native.String.{String}
use rhine.Prelude.{
  ℕ, ◌+◌, ◌%◌, ◌^◌, Bool, true, false, ◌||◌, List, [], ◌∷◌, Option, none, some, ◌==◌,
}

-- The values that the step functions return.
pub data Opcode : Type 0 where
  scan_continue scan_begin_literal scan_begin_object scan_object_key scan_object_value : Opcode
  scan_end_object scan_begin_array scan_array_value scan_end_array scan_skip_space : Opcode
  scan_end scan_error : Opcode

-- What the scanner is in the middle of.
pub data ParseState : Type 0 where
  parse_object_key parse_object_value parse_array_value : ParseState

-- The step functions. A `State` is the value of the field `step`, which in Go is the function.
pub data State : Type 0 where
  begin_value_or_empty begin_value begin_string_or_empty begin_string end_value end_top : State
  in_string in_string_esc in_string_esc_u in_string_esc_u1 in_string_esc_u12 : State
  in_string_esc_u123 : State
  after_neg after_1 after_0 after_dot after_dot0 after_e after_e_sign after_e0 : State
  after_t after_tr after_tru after_f after_fa after_fal after_fals after_n after_nu after_nul :
      State
  after_error : State

-- The text of an error before it is put together: the byte and the context of `error`, or the
-- message of `eof`.
pub data Message : Type 0 where
  invalid_character : ℕ → String → Message
  unexpected_end : Message

pub record SyntaxError : Type 0 where
  pub msg : Message
  pub offset : ℕ

-- The slice `parse_state` is held with its last entry first. `bytes` is the bit pattern of an
-- int64.
pub record Scanner : Type 0 where
  pub step : State
  pub end_top : Bool
  pub parse_state : List ParseState
  pub err : Option SyntaxError
  pub bytes : ℕ

-- What a call of a step function comes to: it returns an opcode, or an index is out of range.
pub data Outcome : Type 0 where
  ret : Scanner → Opcode → Outcome
  panic : Outcome

-- A scanner of the pool's `New`; `newScanner` resets it.
abbrev pub zero_scanner : Scanner
zero_scanner = record {
  step = after_error;
  end_top = false;
  parse_state = [];
  err = none;
  bytes = 0;
}

abbrev pub reset : Scanner → Scanner
reset s = record s { step = begin_value; end_top = false; parse_state = []; err = none }

-- `scan.bytes++` of the walk.
abbrev pub count_byte : Scanner → Scanner
count_byte s = record s { bytes = (s.bytes + 1) % 2 ^ 64 }

abbrev pub push_parse_state : Scanner → ParseState → Scanner
push_parse_state s p = record s { parse_state = p ∷ s.parse_state }

-- `s.parseState[n-1] = p` and the call behind it.
abbrev pub with_top : ParseState → Scanner → List ParseState → (Scanner → Outcome) → Outcome
with_top p s [] k = panic
with_top p s (_ ∷ st) k = k (record s { parse_state = p ∷ st })

-- `popParseState` on the slice it is called with.
abbrev pub pop_parse_state : Scanner → List ParseState → Opcode → Outcome
pop_parse_state s [] op = panic
pop_parse_state s (_ ∷ []) op =
    ret (record s { parse_state = []; step = end_top; end_top = true }) op
pop_parse_state s (_ ∷ p ∷ st) op = ret (record s { parse_state = p ∷ st; step = end_value }) op

-- The method `error`.
abbrev pub fail : Scanner → ℕ → String → Outcome
fail s c context =
    ret
      (record s {
        step = after_error;
        err = some (record { msg = invalid_character c context; offset = s.bytes });
      })
      scan_error

unfoldable pub is_space : ℕ → Bool
is_space c = c == b' ' || c == b'\t' || c == b'\r' || c == b'\n'
