-- ===== src/Scanner/Sound/Text.antt =====
-- From a run that accepts to the grammar: the states inside strings, numbers and words. Each lemma
-- reads one byte, and has the claim for the bytes behind it.
use rhine.Prelude.{ℕ, true, ◌∷◌, ◌≡◌, arith, Bytes}
use rhine.Scanner.Run.{scan_all, accepts}
use rhine.Scanner.Step.{step_at}
use rhine.Scanner.Config.{Stack, at, next, Fits}
use rhine.Scanner.Residual.{Completes}
use rhine.Scanner.State.{
  after_1, after_e0, end_value, after_0, after_dot0, after_fa, after_nul, after_f, in_string_esc_u1,
  after_nu, after_tr, after_n, after_tru, in_string_esc_u, after_fals, in_string_esc_u123,
  after_dot, after_neg, after_t, in_string_esc_u12, in_string_esc, after_e_sign, after_fal,
  in_string, State,
}
use rhine.Scanner.Residual.Text.{
  Completes-escape, Completes-neg_1, Completes-plain, Completes-neg_0, Completes-tru,
  Completes-quote, Completes-fals, Completes-first_exp, Completes-nul, Completes-first_frac,
  Completes-unicode, Completes-simple, Completes-hex2, Completes-n, Completes-hex3, Completes-hex4,
  Completes-hex1, Completes-tr, Completes-fa, Completes-f, Completes-nu, Completes-fal, Completes-t,
}

module _ (c : ℕ) (xs : Bytes)
    (ih : (k : State) (st : Stack) (n : ℕ)
      → Fits k st
      → accepts (at k st n) xs ≡ true
      → Completes k st xs) where
  pub in_string_sound :
      (st : Stack) (n : ℕ)
      → accepts (at in_string st n) (c ∷ xs) ≡ true
      → Completes in_string st (c ∷ xs)
  unfolding scan_all step_at
  in_string_sound st n h = ground (
    arith,
    ih end_value st (next n) tt,
    ih in_string st (next n) tt,
    ih in_string_esc st (next n) tt,
    Completes-quote c st xs,
    Completes-plain c st xs,
    Completes-escape c st xs,
  )

  pub in_string_esc_sound :
      (st : Stack) (n : ℕ)
      → accepts (at in_string_esc st n) (c ∷ xs) ≡ true
      → Completes in_string_esc st (c ∷ xs)
  unfolding scan_all step_at
  in_string_esc_sound st n h = ground (
    arith,
    ih in_string st (next n) tt,
    ih in_string_esc_u st (next n) tt,
    Completes-simple c st xs,
    Completes-unicode c st xs,
  )

  pub in_string_esc_u_sound :
      (st : Stack) (n : ℕ)
      → accepts (at in_string_esc_u st n) (c ∷ xs) ≡ true
      → Completes in_string_esc_u st (c ∷ xs)
  unfolding scan_all step_at
  in_string_esc_u_sound st n h =
      ground (arith, ih in_string_esc_u1 st (next n) tt, Completes-hex4 c st xs)

  pub in_string_esc_u1_sound :
      (st : Stack) (n : ℕ)
      → accepts (at in_string_esc_u1 st n) (c ∷ xs) ≡ true
      → Completes in_string_esc_u1 st (c ∷ xs)
  unfolding scan_all step_at
  in_string_esc_u1_sound st n h =
      ground (arith, ih in_string_esc_u12 st (next n) tt, Completes-hex3 c st xs)

  pub in_string_esc_u12_sound :
      (st : Stack) (n : ℕ)
      → accepts (at in_string_esc_u12 st n) (c ∷ xs) ≡ true
      → Completes in_string_esc_u12 st (c ∷ xs)
  unfolding scan_all step_at
  in_string_esc_u12_sound st n h =
      ground (arith, ih in_string_esc_u123 st (next n) tt, Completes-hex2 c st xs)

  pub in_string_esc_u123_sound :
      (st : Stack) (n : ℕ)
      → accepts (at in_string_esc_u123 st n) (c ∷ xs) ≡ true
      → Completes in_string_esc_u123 st (c ∷ xs)
  unfolding scan_all step_at
  in_string_esc_u123_sound st n h =
      ground (arith, ih in_string st (next n) tt, Completes-hex1 c st xs)

  pub after_neg_sound :
      (st : Stack) (n : ℕ)
      → accepts (at after_neg st n) (c ∷ xs) ≡ true
      → Completes after_neg st (c ∷ xs)
  unfolding scan_all step_at
  after_neg_sound st n h = ground (
    arith,
    ih after_0 st (next n) tt,
    ih after_1 st (next n) tt,
    Completes-neg_0 c st xs,
    Completes-neg_1 c st xs,
  )

  pub after_dot_sound :
      (st : Stack) (n : ℕ)
      → accepts (at after_dot st n) (c ∷ xs) ≡ true
      → Completes after_dot st (c ∷ xs)
  unfolding scan_all step_at
  after_dot_sound st n h =
      ground (arith, ih after_dot0 st (next n) tt, Completes-first_frac c st xs)

  pub after_e_sign_sound :
      (st : Stack) (n : ℕ)
      → accepts (at after_e_sign st n) (c ∷ xs) ≡ true
      → Completes after_e_sign st (c ∷ xs)
  unfolding scan_all step_at
  after_e_sign_sound st n h =
      ground (arith, ih after_e0 st (next n) tt, Completes-first_exp c st xs)

  pub after_t_sound :
      (st : Stack) (n : ℕ)
      → accepts (at after_t st n) (c ∷ xs) ≡ true
      → Completes after_t st (c ∷ xs)
  unfolding scan_all step_at
  after_t_sound st n h = ground (arith, ih after_tr st (next n) tt, Completes-t c st xs)

  pub after_tr_sound :
      (st : Stack) (n : ℕ)
      → accepts (at after_tr st n) (c ∷ xs) ≡ true
      → Completes after_tr st (c ∷ xs)
  unfolding scan_all step_at
  after_tr_sound st n h = ground (arith, ih after_tru st (next n) tt, Completes-tr c st xs)

  pub after_tru_sound :
      (st : Stack) (n : ℕ)
      → accepts (at after_tru st n) (c ∷ xs) ≡ true
      → Completes after_tru st (c ∷ xs)
  unfolding scan_all step_at
  after_tru_sound st n h = ground (arith, ih end_value st (next n) tt, Completes-tru c st xs)

  pub after_f_sound :
      (st : Stack) (n : ℕ)
      → accepts (at after_f st n) (c ∷ xs) ≡ true
      → Completes after_f st (c ∷ xs)
  unfolding scan_all step_at
  after_f_sound st n h = ground (arith, ih after_fa st (next n) tt, Completes-f c st xs)

  pub after_fa_sound :
      (st : Stack) (n : ℕ)
      → accepts (at after_fa st n) (c ∷ xs) ≡ true
      → Completes after_fa st (c ∷ xs)
  unfolding scan_all step_at
  after_fa_sound st n h = ground (arith, ih after_fal st (next n) tt, Completes-fa c st xs)

  pub after_fal_sound :
      (st : Stack) (n : ℕ)
      → accepts (at after_fal st n) (c ∷ xs) ≡ true
      → Completes after_fal st (c ∷ xs)
  unfolding scan_all step_at
  after_fal_sound st n h = ground (arith, ih after_fals st (next n) tt, Completes-fal c st xs)

  pub after_fals_sound :
      (st : Stack) (n : ℕ)
      → accepts (at after_fals st n) (c ∷ xs) ≡ true
      → Completes after_fals st (c ∷ xs)
  unfolding scan_all step_at
  after_fals_sound st n h = ground (arith, ih end_value st (next n) tt, Completes-fals c st xs)

  pub after_n_sound :
      (st : Stack) (n : ℕ)
      → accepts (at after_n st n) (c ∷ xs) ≡ true
      → Completes after_n st (c ∷ xs)
  unfolding scan_all step_at
  after_n_sound st n h = ground (arith, ih after_nu st (next n) tt, Completes-n c st xs)

  pub after_nu_sound :
      (st : Stack) (n : ℕ)
      → accepts (at after_nu st n) (c ∷ xs) ≡ true
      → Completes after_nu st (c ∷ xs)
  unfolding scan_all step_at
  after_nu_sound st n h = ground (arith, ih after_nul st (next n) tt, Completes-nu c st xs)

  pub after_nul_sound :
      (st : Stack) (n : ℕ)
      → accepts (at after_nul st n) (c ∷ xs) ≡ true
      → Completes after_nul st (c ∷ xs)
  unfolding scan_all step_at
  after_nul_sound st n h = ground (arith, ih end_value st (next n) tt, Completes-nul c st xs)
