-- ===== src/Scanner/Invariant/Step.antt =====
-- One step from a scanner without an error, and what it leaves behind.
use rhine.Scanner.Run.{is_error}
use rhine.Scanner.Step.{step_at, scan_step}
use rhine.Scanner.Config.{is_top, Stack, at, Fits}
use rhine.Scanner.State.{
  after_e0, after_dot0, after_0, after_1, end_value, begin_string_or_empty, scan_end,
  scan_end_array, begin_value_or_empty, scan_end_object, after_error, end_top, scan_begin_array,
  scan_begin_object, SyntaxError, panic, ret, Outcome, Scanner, Opcode, State,
}
use Prim.Native.Nat.{ℕ}
use rhine.Prelude.{none, ◌⊎◌, true, some, false, [], arith, ◌+◌, ◌≡◌, Option, ◌∷◌, length}

-- How far an opcode moves the depth of the stack.
abbrev pub Moves : Opcode → Stack → Stack → Type 0
Moves scan_begin_object st st' = length st' ≡ length st + 1
Moves scan_begin_array st st' = length st' ≡ length st + 1
Moves scan_end_object st st' = length st' + 1 ≡ length st
Moves scan_end_array st st' = length st' + 1 ≡ length st
Moves _ st st' = length st' ≡ length st

-- With no error the step function fits the stack again; an error carries the byte count, and only
-- the state behind the value tells it late.
abbrev pub Left : Stack → ℕ → Scanner → Opcode → Option SyntaxError → Type 0
Left st n s op none =
    Fits s.step s.parse_state × (s.end_top ≡ is_top s.step) × (is_error op ≡ false)
Left st n s op (some x) =
    (s.step ≡ after_error) × (x.offset ≡ n) × ((is_error op ≡ true) ⊎ ((op ≡ scan_end) × (st ≡ [])))

abbrev pub Fine : Stack → ℕ → Outcome → Type 0
Fine st n panic = ⊥
Fine st n (ret s op) = (s.bytes ≡ n) × Moves op st s.parse_state × Left st n s op s.err

pub step-Fine : (k : State) (st : Stack) (n c : ℕ) → Fits k st → Fine st n (scan_step (at k st n) c)
unfolding step_at
step-Fine begin_value_or_empty [] n c f = absurd f
step-Fine begin_value_or_empty (p ∷ []) n c f = ground arith
step-Fine begin_value_or_empty (p ∷ q ∷ st) n c f = ground arith
step-Fine begin_string_or_empty [] n c f = absurd f
step-Fine begin_string_or_empty (p ∷ []) n c f = ground arith
step-Fine begin_string_or_empty (p ∷ q ∷ st) n c f = ground arith
step-Fine end_top st n c f = ground arith
step-Fine after_error st n c f = absurd f
step-Fine end_value [] n c f = ground arith
step-Fine end_value (p ∷ []) n c f = ground arith
step-Fine end_value (p ∷ q ∷ st) n c f = ground arith
step-Fine after_1 [] n c f = ground arith
step-Fine after_1 (p ∷ []) n c f = ground arith
step-Fine after_1 (p ∷ q ∷ st) n c f = ground arith
step-Fine after_0 [] n c f = ground arith
step-Fine after_0 (p ∷ []) n c f = ground arith
step-Fine after_0 (p ∷ q ∷ st) n c f = ground arith
step-Fine after_dot0 [] n c f = ground arith
step-Fine after_dot0 (p ∷ []) n c f = ground arith
step-Fine after_dot0 (p ∷ q ∷ st) n c f = ground arith
step-Fine after_e0 [] n c f = ground arith
step-Fine after_e0 (p ∷ []) n c f = ground arith
step-Fine after_e0 (p ∷ q ∷ st) n c f = ground arith
step-Fine _ st n c f = ground arith
