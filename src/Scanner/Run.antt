-- ===== src/Scanner/Run.antt =====
-- `eof`, and the scanner's part of the loop of `WalkAndNotify`.
use rhine.Prelude.{Bool, true, false, not, [], ◌∷◌, none, some, if◌then◌else◌, Bytes}
use rhine.Scanner.State.{
  Opcode, scan_end, scan_error, Scanner, Outcome, ret, panic, unexpected_end, reset, count_byte,
}
use rhine.Scanner.Step.{scan_step}

abbrev pub is_error : Opcode → Bool
is_error scan_error = true
is_error _ = false

-- `eof` behind its call of `s.step`.
eof_after : Scanner → Outcome
eof_after s = if s.end_top then ret s scan_end else elim s.err [
  | none ↦
      ret (record s { err = some (record { msg = unexpected_end; offset = s.bytes }) }) scan_error
  | some _ ↦ ret s scan_error
]

unfoldable pub eof : Scanner → Outcome
unfolding eof_after
eof s = elim s.err [
  | some _ ↦ ret s scan_error
  | none ↦
      if s.end_top
      then ret s scan_end
      else elim (scan_step s b' ') [ ret s' _ ↦ eof_after s' | panic ↦ panic ]
]

-- An error ends the loop, and any other opcode goes on with `rest`.
abbrev pub on_step : Outcome → (Scanner → Outcome) → Outcome
on_step panic rest = panic
on_step (ret s op) rest = elim (is_error op) [ true ↦ ret s scan_error | false ↦ rest s ]

-- The bytes one by one up to an error, and then `eof`.
unfoldable pub scan_all : Scanner → Bytes → Outcome
unfolding eof
scan_all s [] = eof s
scan_all s (c ∷ cs) = on_step (scan_step (count_byte s) c) (λ s'. scan_all s' cs)

-- `newScanner`, whatever scanner the pool gives.
abbrev pub new_scanner : Scanner → Scanner
new_scanner s = reset (record s { bytes = 0 })

abbrev pub accepted : Outcome → Bool
accepted (ret _ op) = not (is_error op)
accepted panic = false

abbrev pub accepts : Scanner → Bytes → Bool
accepts s xs = accepted (scan_all s xs)
