-- ===== src/Scanner/Invariant/Runs.antt =====
-- Whole runs: no index is out of range, and a refusal has its error.
use mathlib.Core.Path.{sym, subst}
use native.Mathlib.Nat.{add-zero, zero-add}
use rhine.Scanner.Run.{new_scanner, on_step, scan_all, is_error}
use rhine.Scanner.Step.{is_escape, is_hex, is_digit19, step_at, scan_step, is_digit}
use rhine.Scanner.Config.{is_top, Stack, at, next, Fits}
use rhine.Scanner.Invariant.Step.{step-Fine, Fine, Left}
use rhine.Scanner.State.{
  scan_error, after_e0, after_dot0, after_0, after_1, end_value, begin_value, end_top, panic,
  after_error, ret, Opcode, State, SyntaxError, Outcome, Scanner, is_space,
}
use rhine.Prelude.{
  ◌∙◌, false, true, inr, [], ◌∷◌, arith, some, inl, refl, ◌^◌, none, Option, ◌<◌, ◌+◌, length, Bool,
  ◌≡◌, ◌≤◌, Bytes,
}
use Prim.Native.Nat.{ℕ}

-- How a run ends: accepted with no error recorded, or refused with an error whose offset is at
-- most `hi`.
abbrev pub Told : ℕ → Bool → Option SyntaxError → Type 0
Told hi false none = Unit
Told hi true (some x) = x.offset ≤ hi
Told hi _ _ = ⊥

abbrev pub Explained : ℕ → Outcome → Type 0
Explained hi panic = ⊥
Explained hi (ret s op) = Told hi (is_error op) s.err

-- A scanner without an error is given by its state, its stack and its count.
pub at-eta :
    (s : Scanner) → s.err ≡ none → s.end_top ≡ is_top s.step → s ≡ at s.step s.parse_state s.bytes
at-eta s e t = ground arith

-- Behind an error that was told late.
error-Explained :
    (hi : ℕ) (xs : Bytes) (s : Scanner) {x : SyntaxError}
    → s.step ≡ after_error
    → s.err ≡ some x
    → x.offset ≤ hi
    → Explained hi (scan_all s xs)
unfolding scan_all step_at
error-Explained hi [] s p q l = ground arith
error-Explained hi (c ∷ xs) s p q l = ground arith

eof-Explained : (k : State) (st : Stack) (n : ℕ) → Fits k st → Explained n (scan_all (at k st n) [])
unfolding scan_all step_at is_space is_digit is_digit19 is_hex is_escape
eof-Explained end_value [] n f = tt
eof-Explained end_value (_ ∷ _) n f = omega arith
eof-Explained after_1 [] n f = tt
eof-Explained after_1 (_ ∷ _) n f = omega arith
eof-Explained after_0 [] n f = tt
eof-Explained after_0 (_ ∷ _) n f = omega arith
eof-Explained after_dot0 [] n f = tt
eof-Explained after_dot0 (_ ∷ _) n f = omega arith
eof-Explained after_e0 [] n f = tt
eof-Explained after_e0 (_ ∷ _) n f = omega arith
eof-Explained end_top st n f = tt
eof-Explained after_error st n f = absurd f
eof-Explained _ st n f = omega arith

module _ (hi : ℕ) (s : Scanner) (op : Opcode) (rest : Scanner → Outcome) where
  on_step-goes :
      is_error op ≡ false → Explained hi (rest s) → Explained hi (on_step (ret s op) rest)
  on_step-goes e h =
      let same : on_step (ret s op) rest ≡ rest s = ground arith in
      subst (Explained hi) (sym same) h

  on_step-stops :
      {x : SyntaxError}
      → is_error op ≡ true
      → s.err ≡ some x
      → x.offset ≤ hi
      → Explained hi (on_step (ret s op) rest)
  on_step-stops e f l =
      let same : on_step (ret s op) rest ≡ ret s scan_error = ground arith in
      subst (Explained hi) (sym same) (rw f l)

module _ (st : Stack) (m hi : ℕ) (xs : Bytes) (le : m ≤ hi)
    (ih : (k : State) (st' : Stack) → Fits k st' → Explained hi (scan_all (at k st' m) xs)) where
  -- The run goes on from what a step has left.
  after_step-Explained :
      (s : Scanner) (op : Opcode) (e : Option SyntaxError)
      → s.err ≡ e
      → s.bytes ≡ m
      → Left st m s op e
      → Explained hi (on_step (ret s op) (λ s'. scan_all s' xs))
  after_step-Explained s op none e b (f, t, o) =
      on_step-goes hi s op (λ s'. scan_all s' xs) o
        (subst (λ z. Explained hi (scan_all z xs)) (sym (at-eta s e t ∙ rw b))
          (ih s.step s.parse_state f))
  after_step-Explained s op (some x) e b (p, q, inl o) =
      on_step-stops hi s op (λ s'. scan_all s' xs) o e (omega arith)
  after_step-Explained s op (some x) e b (p, q, inr (o, _)) =
      on_step-goes hi s op (λ s'. scan_all s' xs) (rw o) (error-Explained hi xs s p e (omega arith))

  step-Explained : (o : Outcome) → Fine st m o → Explained hi (on_step o (λ s'. scan_all s' xs))
  step-Explained (ret s op) (b, _, l) = after_step-Explained s op s.err refl b l
  step-Explained panic f = absurd f

pub scan_all-Explained :
    (xs : Bytes) (k : State) (st : Stack) (n : ℕ)
    → Fits k st
    → n + length xs < 2 ^ 64
    → Explained (n + length xs) (scan_all (at k st n) xs)
unfolding scan_all
scan_all-Explained [] k st n f l = rw add-zero (eof-Explained k st n f)
scan_all-Explained (c ∷ xs) k st n f l =
    step-Explained st (next n) (n + length (c ∷ xs)) xs (omega arith)
      (λ k' st' g.
        subst (λ z. Explained z (scan_all (at k' st' (next n)) xs)) (omega arith)
          (scan_all-Explained xs k' st' (next n) g (omega arith)))
      (scan_step (at k st (next n)) c) (step-Fine k st (next n) c f)

-- Within 2^64 bytes every run ends without a fault, and it either accepts with no error recorded
-- or refuses with an error whose offset lies in the text.
pub new_scanner-Explained :
    (s : Scanner) (text : Bytes)
    → length text < 2 ^ 64
    → Explained (length text) (scan_all (new_scanner s) text)
new_scanner-Explained s text l =
    rw zero-add at (scan_all-Explained text begin_value [] 0 tt (omega arith))

-- A larger bound serves too.
Told-mono : (lo hi : ℕ) (b : Bool) (e : Option SyntaxError) → lo ≤ hi → Told lo b e → Told hi b e
Told-mono lo hi true none l t = absurd t
Told-mono lo hi true (some x) l t = omega arith
Told-mono lo hi false none l t = tt
Told-mono lo hi false (some x) l t = absurd t

pub Explained-mono : (lo hi : ℕ) (o : Outcome) → lo ≤ hi → Explained lo o → Explained hi o
Explained-mono lo hi panic l t = absurd t
Explained-mono lo hi (ret s op) l t = Told-mono lo hi (is_error op) s.err l t
