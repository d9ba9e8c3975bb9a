-- ===== src/Scanner/Carry/Text.antt =====
-- Strings and words, carried through the scanner.
use rhine.Scanner.Carry.Moves.{
  Carries, carries_on, Moves-quote, Moves-plain, Moves-escape, Moves-simple, Moves-unicode,
  hex_state, Moves-hex, Moves-t_r, Moves-tr_u, Moves-tru_e, Moves-f_a, Moves-fa_l, Moves-fal_s,
  Moves-fals_e, Moves-n_u, Moves-nu_l, Moves-nul_l,
}
use rhine.Scanner.Config.{Stack}
use rhine.Scanner.State.{
  in_string_esc_u, in_string_esc, after_n, after_f, in_string, after_t, end_value, State,
}
use rhine.Scanner.Grammar.{Hex, Escape, Word, Chars}
use rhine.Prelude.{ℕ, suc, ◌≤◌, Bytes, arith, codes}

module _ (A : State → Stack → Bytes → Type 0) (carries : Carries A) where
  mutual
    carries-Chars : {xs r : Bytes} (st : Stack) → Chars xs r → A end_value st r → A in_string st xs
    carries-Chars st (Chars.quote {c} {r} e) h =
        carries_on A carries in_string end_value st c r (Moves-quote st c e) h
    carries-Chars st (Chars.plain {c} {xs} p q l g) h =
        carries_on A carries in_string in_string st c xs (Moves-plain st c p q l)
          (carries-Chars st g h)
    carries-Chars st (Chars.escape {c} {xs} e g) h =
        carries_on A carries in_string in_string_esc st c xs (Moves-escape st c e)
          (carries-Escape st g h)

    carries-Escape :
        {xs r : Bytes} (st : Stack) → Escape xs r → A end_value st r → A in_string_esc st xs
    carries-Escape st (Escape.simple {c} {xs} e g) h =
        carries_on A carries in_string_esc in_string st c xs (Moves-simple st c e)
          (carries-Chars st g h)
    carries-Escape st (Escape.unicode {c} {xs} e g) h =
        carries_on A carries in_string_esc in_string_esc_u st c xs (Moves-unicode st c e)
          (carries-Hex st (omega arith) g h)

    carries-Hex :
        {k : ℕ} {xs r : Bytes} (st : Stack)
        → k ≤ 4
        → Hex k xs r
        → A end_value st r
        → A (hex_state k) st xs
    carries-Hex st l (Hex.enough g) h = carries-Chars st g h
    carries-Hex st l (Hex.digit {k} {c} {xs} e g) h =
        carries_on A carries (hex_state (suc k)) (hex_state k) st c xs (Moves-hex k st c l e)
          (carries-Hex st (omega arith) g h)

  pub carries-string :
      {xs r : Bytes} (st : Stack) → Chars xs r → A end_value st r → A in_string st xs
  carries-string st g h = carries-Chars st g h

  -- A word, of which each letter is expected by one state.
  module _ {r : Bytes} (st : Stack) (h : A end_value st r) where
    pub carries-true : {xs : Bytes} → Word (codes "rue") xs r → A after_t st xs
    carries-true
          (Word.letter {c = c₁} a (Word.letter {c = c₂} b (Word.letter {c = c₃} d Word.spelled))) =
        carries_on A carries _ _ st c₁ _ (Moves-t_r st c₁ a) (
          carries_on A carries _ _ st c₂ _ (Moves-tr_u st c₂ b)
            (carries_on A carries _ _ st c₃ _ (Moves-tru_e st c₃ d) h))

    pub carries-false : {xs : Bytes} → Word (codes "alse") xs r → A after_f st xs
    carries-false
          (Word.letter {c = c₁} a (
            Word.letter {c = c₂} b
              (Word.letter {c = c₃} d (Word.letter {c = c₄} e Word.spelled)))) =
        carries_on A carries _ _ st c₁ _ (Moves-f_a st c₁ a) (
          carries_on A carries _ _ st c₂ _ (Moves-fa_l st c₂ b) (
            carries_on A carries _ _ st c₃ _ (Moves-fal_s st c₃ d)
              (carries_on A carries _ _ st c₄ _ (Moves-fals_e st c₄ e) h)))

    pub carries-null : {xs : Bytes} → Word (codes "ull") xs r → A after_n st xs
    carries-null
          (Word.letter {c = c₁} a (Word.letter {c = c₂} b (Word.letter {c = c₃} d Word.spelled))) =
        carries_on A carries _ _ st c₁ _ (Moves-n_u st c₁ a) (
          carries_on A carries _ _ st c₂ _ (Moves-nu_l st c₂ b)
            (carries_on A carries _ _ st c₃ _ (Moves-nul_l st c₃ d) h))
