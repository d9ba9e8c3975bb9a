-- ===== src/Scanner/Carry/Ends.antt =====
-- The ends of values and the tokens between them, carried through the scanner.
use rhine.Scanner.Carry.Moves.{Carries}
use rhine.Scanner.Carry.Number.{Goes}
use rhine.Scanner.Carry.Opens.{Moves-blank_end}
use rhine.Scanner.Step.{scan_step, is_digit}
use rhine.Scanner.Config.{Stack, at}
use rhine.Scanner.State.{State, is_space, ParseState, end_value, scan_skip_space}
use rhine.Scanner.Delegate.{EndsValue, at_end, at_0, at_1, at_dot0, at_e0, goes_on, step-number}
use rhine.Scanner.Grammar.{Token}
use rhine.Prelude.{ℕ, ◌∷◌, ◌≡◌, Bytes, true, false, refl, arith}

-- What holds before a byte in one state holds in another that takes the same step.
abbrev pub Delegates : (State → Stack → Bytes → Type 0) → Type 0
Delegates A =
    (k k' : State) (st : Stack) (c : ℕ) (xs : Bytes)
    → ((n : ℕ) → scan_step (at k st n) c ≡ scan_step (at k' st n) c)
    → A k' st (c ∷ xs)
    → A k st (c ∷ xs)

-- A byte that carries no number on.
abbrev pub Delimits : ℕ → Type 0
Delimits want = (k : State) → EndsValue k → goes_on k want ≡ false

pub goes_on-space : (c : ℕ) → is_space c ≡ true → (k : State) → EndsValue k → goes_on k c ≡ false
unfolding is_space is_digit
goes_on-space c e end_value at_end = refl
goes_on-space c e _ at_1 = ground arith
goes_on-space c e _ at_0 = ground arith
goes_on-space c e _ at_dot0 = ground arith
goes_on-space c e _ at_e0 = ground arith

pub Delimits-comma : Delimits b','
unfolding is_digit
Delimits-comma end_value at_end = refl
Delimits-comma _ at_1 = refl
Delimits-comma _ at_0 = refl
Delimits-comma _ at_dot0 = refl
Delimits-comma _ at_e0 = refl

pub Delimits-bracket : Delimits b']'
unfolding is_digit
Delimits-bracket end_value at_end = refl
Delimits-bracket _ at_1 = refl
Delimits-bracket _ at_0 = refl
Delimits-bracket _ at_dot0 = refl
Delimits-bracket _ at_e0 = refl

pub Delimits-brace : Delimits b'}'
unfolding is_digit
Delimits-brace end_value at_end = refl
Delimits-brace _ at_1 = refl
Delimits-brace _ at_0 = refl
Delimits-brace _ at_dot0 = refl
Delimits-brace _ at_e0 = refl

module _ (A : State → Stack → Bytes → Type 0) where
  -- A token, where white space keeps the state.
  pub carries-Token :
      {want : ℕ} {xs r : Bytes} (k : State) (st : Stack)
      → ((c : ℕ) (ys : Bytes) → is_space c ≡ true → A k st ys → A k st (c ∷ ys))
      → Token want xs r
      → A k st (want ∷ r)
      → A k st xs
  carries-Token k st blank (Token.byte {c} {r} e) h = rw e h
  carries-Token k st blank (Token.blank {c} {xs} e t) h =
      blank c xs e (carries-Token k st blank t h)

  -- Before a delimiter it is enough that the value has ended.
  pub ended-Token :
      {want : ℕ} {xs r : Bytes} (st : Stack)
      → Delegates A
      → Delimits want
      → Token want xs r
      → A end_value st xs
      → (k : State) → EndsValue k
      → A k st xs
  ended-Token st delegates d (Token.byte {c} {r} e) h k v =
      delegates k end_value st c r (λ n. step-number c st n v (rw e (d k v))) h
  ended-Token st delegates d (Token.blank {c} {xs} e t) h k v =
      delegates k end_value st c xs (λ n. step-number c st n v (goes_on-space c e k v)) h

  pub Goes-Token :
      {want : ℕ} {xs r : Bytes} (p : ParseState) (st : Stack)
      → Carries A
      → Delegates A
      → Delimits want
      → Token want xs r
      → A end_value (p ∷ st) (want ∷ r)
      → Goes A (p ∷ st) xs
  Goes-Token p st carries delegates d t h =
      let ended : A end_value (p ∷ st) _ =
        carries-Token end_value (p ∷ st)
          (λ c ys e.
            carries end_value end_value (p ∷ st) (p ∷ st) c ys scan_skip_space refl
              (Moves-blank_end p st c e))
          t h in
      record { ended = ended-Token (p ∷ st) delegates d t ended; shut = ended }
