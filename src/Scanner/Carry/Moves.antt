-- ===== src/Scanner/Carry/Moves.antt =====
-- The steps of the scanner that go on without an error, one equation each.
use rhine.Scanner.Step.{is_digit19, is_digit, scan_step, step_at, is_hex, is_escape}
use rhine.Scanner.Config.{Stack, at}
use rhine.Scanner.State.{
  after_1, after_e_sign, after_dot, after_0, after_e, after_dot0, after_e0, after_fals, after_t,
  after_nu, after_tru, after_fal, after_n, after_neg, after_f, after_fa, after_nul, after_tr,
  in_string_esc_u1, in_string_esc_u12, end_value, in_string_esc_u, in_string_esc_u123, in_string,
  in_string_esc, scan_continue, scan_begin_literal, scan_object_key, scan_error, State, Opcode, ret,
}
use rhine.Prelude.{
  Bytes, Bool, false, refl, ◌∷◌, ◌⊎◌, ℕ, ◌≡◌, ◌≢◌, ◌≤◌, ◌<◌, true, arith, zero, suc,
}
use rhine.Scanner.Delegate.{at_e0, at_dot0, at_0, at_1, at_end, goes_on, EndsValue}

-- A step from one state and stack to another, whatever the count of bytes is.
abbrev pub Moves : State → Stack → ℕ → State → Stack → Opcode → Type 0
Moves k st c k' st' op = (n : ℕ) → scan_step (at k st n) c ≡ ret (at k' st' n) op

-- The opcodes that neither begin a literal, nor end a key, nor are an error.
abbrev pub is_plain : Opcode → Bool
is_plain scan_begin_literal = false
is_plain scan_object_key = false
is_plain scan_error = false
is_plain _ = true

-- What holds behind such a step holds before it.
abbrev pub Carries : (State → Stack → Bytes → Type 0) → Type 0
Carries A =
    (k k' : State) (st st' : Stack) (c : ℕ) (xs : Bytes) (op : Opcode)
    → is_plain op ≡ true
    → Moves k st c k' st' op
    → A k' st' xs
    → A k st (c ∷ xs)

pub carries_on :
    (A : State → Stack → Bytes → Type 0)
    → Carries A
    → (k k' : State) (st : Stack) (c : ℕ) (xs : Bytes) → Moves k st c k' st scan_continue
    → A k' st xs
    → A k st (c ∷ xs)
carries_on A carries k k' st c xs m h = carries k k' st st c xs scan_continue refl m h

module _ (st : Stack) (c : ℕ) where
  pub Moves-quote : c ≡ b'"' → Moves in_string st c end_value st scan_continue
  unfolding step_at
  Moves-quote e n = ground arith

  pub Moves-plain :
      c ≢ b'"' → c ≢ b'\\' → 0x20 ≤ c → Moves in_string st c in_string st scan_continue
  unfolding step_at
  Moves-plain p q l n = ground arith

  pub Moves-escape : c ≡ b'\\' → Moves in_string st c in_string_esc st scan_continue
  unfolding step_at
  Moves-escape e n = ground arith

  pub Moves-simple : is_escape c ≡ true → Moves in_string_esc st c in_string st scan_continue
  unfolding step_at
  Moves-simple e n = ground arith

  pub Moves-unicode : c ≡ b'u' → Moves in_string_esc st c in_string_esc_u st scan_continue
  unfolding step_at is_escape
  Moves-unicode e n = ground arith

-- The state with so many hexadecimal digits to come.
abbrev pub hex_state : ℕ → State
hex_state zero = in_string
hex_state (suc zero) = in_string_esc_u123
hex_state (suc (suc zero)) = in_string_esc_u12
hex_state (suc (suc (suc zero))) = in_string_esc_u1
hex_state (suc (suc (suc (suc _)))) = in_string_esc_u

pub Moves-hex :
    (k : ℕ) (st : Stack) (c : ℕ)
    → k < 4
    → is_hex c ≡ true
    → Moves (hex_state (suc k)) st c (hex_state k) st scan_continue
unfolding step_at
Moves-hex zero st c l e n = ground arith
Moves-hex (suc zero) st c l e n = ground arith
Moves-hex (suc (suc zero)) st c l e n = ground arith
Moves-hex (suc (suc (suc zero))) st c l e n = ground arith
Moves-hex (suc (suc (suc (suc k)))) st c l e n = absurd (omega arith)

-- The letters of the words behind their first ones.
module _ (st : Stack) (c : ℕ) where
  pub Moves-t_r : c ≡ b'r' → Moves after_t st c after_tr st scan_continue
  unfolding step_at
  Moves-t_r e n = ground arith

  pub Moves-tr_u : c ≡ b'u' → Moves after_tr st c after_tru st scan_continue
  unfolding step_at
  Moves-tr_u e n = ground arith

  pub Moves-tru_e : c ≡ b'e' → Moves after_tru st c end_value st scan_continue
  unfolding step_at
  Moves-tru_e e n = ground arith

  pub Moves-f_a : c ≡ b'a' → Moves after_f st c after_fa st scan_continue
  unfolding step_at
  Moves-f_a e n = ground arith

  pub Moves-fa_l : c ≡ b'l' → Moves after_fa st c after_fal st scan_continue
  unfolding step_at
  Moves-fa_l e n = ground arith

  pub Moves-fal_s : c ≡ b's' → Moves after_fal st c after_fals st scan_continue
  unfolding step_at
  Moves-fal_s e n = ground arith

  pub Moves-fals_e : c ≡ b'e' → Moves after_fals st c end_value st scan_continue
  unfolding step_at
  Moves-fals_e e n = ground arith

  pub Moves-n_u : c ≡ b'u' → Moves after_n st c after_nu st scan_continue
  unfolding step_at
  Moves-n_u e n = ground arith

  pub Moves-nu_l : c ≡ b'l' → Moves after_nu st c after_nul st scan_continue
  unfolding step_at
  Moves-nu_l e n = ground arith

  pub Moves-nul_l : c ≡ b'l' → Moves after_nul st c end_value st scan_continue
  unfolding step_at
  Moves-nul_l e n = ground arith

-- The bytes of a number.
module _ (st : Stack) (c : ℕ) where
  pub Moves-exp_digit : is_digit c ≡ true → Moves after_e0 st c after_e0 st scan_continue
  unfolding step_at
  Moves-exp_digit e n = ground arith

  pub Moves-first_exp : is_digit c ≡ true → Moves after_e_sign st c after_e0 st scan_continue
  unfolding step_at
  Moves-first_exp e n = ground arith

  pub Moves-exp_unsigned : is_digit c ≡ true → Moves after_e st c after_e0 st scan_continue
  unfolding step_at is_digit
  Moves-exp_unsigned e n = ground arith

  pub Moves-sign : (c ≡ b'+') ⊎ (c ≡ b'-') → Moves after_e st c after_e_sign st scan_continue
  unfolding step_at
  Moves-sign e n = ground arith

  pub Moves-frac_digit : is_digit c ≡ true → Moves after_dot0 st c after_dot0 st scan_continue
  unfolding step_at
  Moves-frac_digit e n = ground arith

  pub Moves-first_frac : is_digit c ≡ true → Moves after_dot st c after_dot0 st scan_continue
  unfolding step_at
  Moves-first_frac e n = ground arith

  pub Moves-int_digit : is_digit c ≡ true → Moves after_1 st c after_1 st scan_continue
  unfolding step_at
  Moves-int_digit e n = ground arith

  -- The letter `e` behind any mantissa.
  pub Moves-e :
      {k : State}
      → EndsValue k
      → (c ≡ b'e') ⊎ (c ≡ b'E')
      → goes_on k b'e' ≡ true
      → Moves k st c after_e st scan_continue
  unfolding step_at is_digit
  Moves-e at_end e g n = cc
  Moves-e at_1 e g n = ground arith
  Moves-e at_0 e g n = ground arith
  Moves-e at_dot0 e g n = ground arith
  Moves-e at_e0 e g n = cc

  pub Moves-dot :
      {k : State}
      → EndsValue k
      → c ≡ b'.'
      → goes_on k b'.' ≡ true
      → Moves k st c after_dot st scan_continue
  unfolding step_at is_digit
  Moves-dot at_end e g n = cc
  Moves-dot at_1 e g n = ground arith
  Moves-dot at_0 e g n = ground arith
  Moves-dot at_dot0 e g n = cc
  Moves-dot at_e0 e g n = cc

  pub Moves-leading_0 : c ≡ b'0' → Moves after_neg st c after_0 st scan_continue
  unfolding step_at
  Moves-leading_0 e n = ground arith

  pub Moves-leading_1 : is_digit19 c ≡ true → Moves after_neg st c after_1 st scan_continue
  unfolding step_at is_digit19
  Moves-leading_1 e n = ground arith
