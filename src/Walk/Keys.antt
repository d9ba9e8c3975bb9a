-- ===== src/Walk/Keys.antt =====
-- Where the last literal began, by the state of the scanner: what keeps the slice of a key in
-- range.
use rhine.Prelude.{ℕ, ◌+◌, ◌≤◌, ◌<◌, [], ◌∷◌, ◌≡◌, none, arith, length}
use rhine.Scanner.Step.{step_at, scan_step}
use rhine.Scanner.Config.{Stack, at, Fits}
use rhine.Scanner.State.{
  after_e0, after_dot0, after_0, after_1, begin_value_or_empty, after_error, begin_value, end_value,
  in_string_esc_u123, in_string_esc_u12, in_string_esc_u1, in_string_esc_u, in_string_esc,
  scan_object_key, panic, in_string, begin_string, parse_array_value, begin_string_or_empty,
  parse_object_value, ret, parse_object_key, Outcome, scan_begin_literal, State, Opcode,
}
use Prim.Native.Nat.{◌<◌, ◌≤◌, ◌+◌, ℕ}

abbrev pub NoKeys : Stack → Type 0
NoKeys [] = Unit
NoKeys (parse_object_key ∷ st) = ⊥
NoKeys (_ ∷ st) = NoKeys st

-- Before or in a key at position `i`, with the last literal at `l`.
abbrev pub KeyAt : State → ℕ → ℕ → Type 0
KeyAt begin_string_or_empty l i = Unit
KeyAt begin_string l i = Unit
KeyAt in_string l i = l + 1 ≤ i
KeyAt in_string_esc l i = l + 2 ≤ i
KeyAt in_string_esc_u l i = l + 2 ≤ i
KeyAt in_string_esc_u1 l i = l + 2 ≤ i
KeyAt in_string_esc_u12 l i = l + 2 ≤ i
KeyAt in_string_esc_u123 l i = l + 2 ≤ i
KeyAt end_value l i = l + 2 ≤ i
KeyAt _ l i = ⊥

-- Only the innermost container can be in a key.
abbrev pub Placed : State → Stack → ℕ → ℕ → Type 0
Placed k [] l i = Unit
Placed k (parse_object_key ∷ st) l i = KeyAt k l i × NoKeys st
Placed k (_ ∷ st) l i = NoKeys st

abbrev pub literal_after : Opcode → ℕ → ℕ → ℕ
literal_after scan_begin_literal l i = i
literal_after _ l i = l

-- What one step at position `i` leaves, unless there is an error; where a key ends the slice
-- from behind its first quote up to `i - 1` is in range.
abbrev pub KeyEnds : Opcode → Stack → ℕ → ℕ → Type 0
KeyEnds scan_object_key st l i = (l + 2 ≤ i) × (0 < length st)
KeyEnds _ st l i = Unit

abbrev pub Keeps : Stack → ℕ → ℕ → Outcome → Type 0
Keeps st l i panic = ⊥
Keeps st l i (ret s op) =
    s.err ≡ none
    → Placed s.step s.parse_state (literal_after op l i) (i + 1) × KeyEnds op s.parse_state l i

pub step-Keeps :
    (k : State) (st : Stack) (n c l i : ℕ)
    → Fits k st
    → Placed k st l i
    → Keeps st l i (scan_step (at k st n) c)
unfolding step_at
step-Keeps begin_value_or_empty [] n c l i f p = absurd f
step-Keeps begin_value_or_empty (parse_object_key ∷ st) n c l i f p = absurd p.0
step-Keeps begin_value_or_empty (parse_object_value ∷ st) n c l i f p = cc
step-Keeps begin_value_or_empty (parse_array_value ∷ []) n c l i f p = ground arith
step-Keeps begin_value_or_empty (parse_array_value ∷ q ∷ st) n c l i f p = ground arith
step-Keeps begin_value st n c l i f p = ground arith
step-Keeps begin_string_or_empty [] n c l i f p = absurd f
step-Keeps begin_string_or_empty (parse_object_value ∷ st) n c l i f p = cc
step-Keeps begin_string_or_empty (parse_array_value ∷ st) n c l i f p = cc
step-Keeps begin_string_or_empty (parse_object_key ∷ []) n c l i f p = ground arith
step-Keeps begin_string_or_empty (parse_object_key ∷ q ∷ st) n c l i f p = ground arith
step-Keeps end_value [] n c l i f p = ground arith
step-Keeps end_value (parse_object_key ∷ st) n c l i f p = ground arith
step-Keeps end_value (parse_object_value ∷ []) n c l i f p = ground arith
step-Keeps end_value (parse_object_value ∷ q ∷ st) n c l i f p = ground arith
step-Keeps end_value (parse_array_value ∷ []) n c l i f p = ground arith
step-Keeps end_value (parse_array_value ∷ q ∷ st) n c l i f p = ground arith
step-Keeps after_1 [] n c l i f p = ground arith
step-Keeps after_1 (parse_object_key ∷ st) n c l i f p = ground arith
step-Keeps after_1 (parse_object_value ∷ []) n c l i f p = ground arith
step-Keeps after_1 (parse_object_value ∷ q ∷ st) n c l i f p = ground arith
step-Keeps after_1 (parse_array_value ∷ []) n c l i f p = ground arith
step-Keeps after_1 (parse_array_value ∷ q ∷ st) n c l i f p = ground arith
step-Keeps after_0 [] n c l i f p = ground arith
step-Keeps after_0 (parse_object_key ∷ st) n c l i f p = ground arith
step-Keeps after_0 (parse_object_value ∷ []) n c l i f p = ground arith
step-Keeps after_0 (parse_object_value ∷ q ∷ st) n c l i f p = ground arith
step-Keeps after_0 (parse_array_value ∷ []) n c l i f p = ground arith
step-Keeps after_0 (parse_array_value ∷ q ∷ st) n c l i f p = ground arith
step-Keeps after_dot0 [] n c l i f p = ground arith
step-Keeps after_dot0 (parse_object_key ∷ st) n c l i f p = ground arith
step-Keeps after_dot0 (parse_object_value ∷ []) n c l i f p = ground arith
step-Keeps after_dot0 (parse_object_value ∷ q ∷ st) n c l i f p = ground arith
step-Keeps after_dot0 (parse_array_value ∷ []) n c l i f p = ground arith
step-Keeps after_dot0 (parse_array_value ∷ q ∷ st) n c l i f p = ground arith
step-Keeps after_e0 [] n c l i f p = ground arith
step-Keeps after_e0 (parse_object_key ∷ st) n c l i f p = ground arith
step-Keeps after_e0 (parse_object_value ∷ []) n c l i f p = ground arith
step-Keeps after_e0 (parse_object_value ∷ q ∷ st) n c l i f p = ground arith
step-Keeps after_e0 (parse_array_value ∷ []) n c l i f p = ground arith
step-Keeps after_e0 (parse_array_value ∷ q ∷ st) n c l i f p = ground arith
step-Keeps after_error st n c l i f p = absurd f
step-Keeps _ [] n c l i f p = ground arith
step-Keeps _ (parse_object_key ∷ st) n c l i f p = ground arith
step-Keeps _ (_ ∷ st) n c l i f p = ground arith
