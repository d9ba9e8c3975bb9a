-- ===== src/Scanner/Sound.antt =====
-- What the scanner accepts is JSON: the induction over the bytes, from the lemmas for one byte.
mod Text
mod Composite
mod Ends
use mathlib.Core.Bool.{false≢true}
use rhine.Scanner.Run.{new_scanner, scan_all, accepts}
use rhine.Scanner.Step.{step_at, is_digit, is_digit19, is_hex, is_escape}
use rhine.Scanner.Residual.{Completes}
use rhine.Scanner.State.{
  after_error, after_nul, after_nu, after_n, after_fals, after_fal, after_fa, after_f, after_tru,
  after_tr, after_t, after_e_sign, after_e, after_dot, after_neg, in_string_esc_u123,
  in_string_esc_u12, in_string_esc_u1, in_string_esc_u, in_string_esc, in_string, begin_string,
  begin_value_or_empty, begin_string_or_empty, end_top, after_e0, after_dot0, after_0, after_1,
  begin_value, end_value, Scanner, is_space, State,
}
use rhine.Prelude.{◌∷◌, true, [], ◌≡◌, Bytes}
use Prim.Native.Nat.{ℕ}
use rhine.Scanner.Config.{Fits, at, Stack}
use rhine.Scanner.Grammar.{Spaces, Json}
use rhine.Scanner.Residual.Text.{
  Completes-end_e0, Completes-end_dot0, Completes-end_0, Completes-integer,
}
use rhine.Scanner.Sound.Ends.{
  after_e_sound, number_sound, begin_key_sound, begin_object_sound, begin_array_sound,
}
use rhine.Scanner.Delegate.{at_e0, at_dot0, at_0, at_1, accepts-number_nil}
use rhine.Scanner.Sound.Composite.{end_top_sound, end_value_sound, begin_value_sound}
use rhine.Scanner.Sound.Text.{
  after_nul_sound, after_nu_sound, after_n_sound, after_fals_sound, after_fal_sound, after_fa_sound,
  after_f_sound, after_tru_sound, after_tr_sound, after_t_sound, after_e_sign_sound,
  after_dot_sound, after_neg_sound, in_string_esc_u123_sound, in_string_esc_u12_sound,
  in_string_esc_u1_sound, in_string_esc_u_sound, in_string_esc_sound, in_string_sound,
}

-- At the end of the text only a finished value is accepted.
end_sound : (st : Stack) (n : ℕ) → accepts (at end_value st n) [] ≡ true → Completes end_value st []
unfolding scan_all step_at is_space Completes
end_sound [] n h = Spaces.nothing
end_sound (_ ∷ _) n h = cc

nil_sound :
    (k : State) (st : Stack) (n : ℕ) → Fits k st → accepts (at k st n) [] ≡ true → Completes k st []
nil_sound end_value st n f h = end_sound st n h
nil_sound after_1 st n f h =
    Completes-integer st []
      (Completes-end_0 st [] (end_sound st n (rw (← accepts-number_nil st n at_1) h)))
nil_sound after_0 st n f h =
    Completes-end_0 st [] (end_sound st n (rw (← accepts-number_nil st n at_0) h))
nil_sound after_dot0 st n f h =
    Completes-end_dot0 st [] (end_sound st n (rw (← accepts-number_nil st n at_dot0) h))
nil_sound after_e0 st n f h =
    Completes-end_e0 st [] (end_sound st n (rw (← accepts-number_nil st n at_e0) h))
nil_sound end_top st n f h = unfold Completes in Spaces.nothing
nil_sound begin_string_or_empty st n f h =
    unfold scan_all step_at is_space is_digit is_digit19 is_hex is_escape in absurd (false≢true h)
nil_sound _ st n f h =
    unfold scan_all step_at is_space is_digit is_digit19 is_hex is_escape in absurd (false≢true h)

cons_sound :
    (c : ℕ) (xs : Bytes)
    → ((k : State) (st : Stack) (n : ℕ)
        → Fits k st
        → accepts (at k st n) xs ≡ true
        → Completes k st xs)
    → (k : State) (st : Stack) (n : ℕ) → Fits k st
    → accepts (at k st n) (c ∷ xs) ≡ true
    → Completes k st (c ∷ xs)
cons_sound c xs ih begin_value_or_empty st n f h = begin_array_sound c xs ih st n f h
cons_sound c xs ih begin_value st n f h = begin_value_sound c xs ih st n h
cons_sound c xs ih begin_string_or_empty st n f h = begin_object_sound c xs ih st n f h
cons_sound c xs ih begin_string st n f h = begin_key_sound c xs ih st n f h
cons_sound c xs ih end_value st n f h = end_value_sound c xs ih st n h
cons_sound c xs ih end_top [] n f h = end_top_sound c xs ih n h
cons_sound c xs ih end_top (_ ∷ _) n f h = cc
cons_sound c xs ih in_string st n f h = in_string_sound c xs ih st n h
cons_sound c xs ih in_string_esc st n f h = in_string_esc_sound c xs ih st n h
cons_sound c xs ih in_string_esc_u st n f h = in_string_esc_u_sound c xs ih st n h
cons_sound c xs ih in_string_esc_u1 st n f h = in_string_esc_u1_sound c xs ih st n h
cons_sound c xs ih in_string_esc_u12 st n f h = in_string_esc_u12_sound c xs ih st n h
cons_sound c xs ih in_string_esc_u123 st n f h = in_string_esc_u123_sound c xs ih st n h
cons_sound c xs ih after_neg st n f h = after_neg_sound c xs ih st n h
cons_sound c xs ih after_1 st n f h = number_sound c xs ih st n at_1 h
cons_sound c xs ih after_0 st n f h = number_sound c xs ih st n at_0 h
cons_sound c xs ih after_dot st n f h = after_dot_sound c xs ih st n h
cons_sound c xs ih after_dot0 st n f h = number_sound c xs ih st n at_dot0 h
cons_sound c xs ih after_e st n f h = after_e_sound c xs ih st n h
cons_sound c xs ih after_e_sign st n f h = after_e_sign_sound c xs ih st n h
cons_sound c xs ih after_e0 st n f h = number_sound c xs ih st n at_e0 h
cons_sound c xs ih after_t st n f h = after_t_sound c xs ih st n h
cons_sound c xs ih after_tr st n f h = after_tr_sound c xs ih st n h
cons_sound c xs ih after_tru st n f h = after_tru_sound c xs ih st n h
cons_sound c xs ih after_f st n f h = after_f_sound c xs ih st n h
cons_sound c xs ih after_fa st n f h = after_fa_sound c xs ih st n h
cons_sound c xs ih after_fal st n f h = after_fal_sound c xs ih st n h
cons_sound c xs ih after_fals st n f h = after_fals_sound c xs ih st n h
cons_sound c xs ih after_n st n f h = after_n_sound c xs ih st n h
cons_sound c xs ih after_nu st n f h = after_nu_sound c xs ih st n h
cons_sound c xs ih after_nul st n f h = after_nul_sound c xs ih st n h
cons_sound c xs ih after_error st n f h = absurd f

pub accepts-Completes :
    (xs : Bytes) (k : State) (st : Stack) (n : ℕ)
    → Fits k st
    → accepts (at k st n) xs ≡ true
    → Completes k st xs
accepts-Completes [] = nil_sound
accepts-Completes (c ∷ xs) = cons_sound c xs (accepts-Completes xs)

pub accepts-Json : (s : Scanner) (text : Bytes) → accepts (new_scanner s) text ≡ true → Json text
unfolding Completes
accepts-Json s text h =
    let (r, v, t) = accepts-Completes text begin_value [] 0 tt h in Json.document v t
